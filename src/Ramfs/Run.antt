-- ===== src/Ramfs/Run.antt =====
-- Any sequence of calls on the files of fs/ramfs.c, from their initialisation on.
use efes_os.Base.{
  ◌≤◌, ◌≡◌, refl, ap, sym, subst, ◌∙◌, Bool, List, [], ◌∷◌, Option, none, some, arith,
}
use efes_os.Ramfs.{
  Text, Ramfs, name_max, content_max, max_files, ramfs_write_file, ramfs_remove_file,
}
use efes_os.Ramfs.Texts.{text}
use efes_os.Ramfs.Directory.{Directory, WellFormed, write_file, remove_file}
use efes_os.Ramfs.Invariant.{write_file-WellFormed, remove_file-WellFormed}
use efes_os.Ramfs.Table.{directory, length-entries_from}
use efes_os.Ramfs.Refine.{write_file_refines}
use efes_os.Ramfs.Remove.{remove_file_refines}

pub data Call : Type 0 where
  write : Option Text → Option Text → Call
  remove : Option Text → Call

unfoldable pub step : Call → Ramfs → Ramfs
step (Call.write name contents) s = (ramfs_write_file name contents s).1
step (Call.remove name) s = (ramfs_remove_file name s).1

unfoldable pub run : List Call → Ramfs → Ramfs
run [] s = s
run (call ∷ calls) s = run calls (step call s)

-- The same calls on a directory.
unfoldable pub meant : Call → Directory → Directory
meant (Call.write none contents) d = d
meant (Call.write (some name) none) d = d
meant (Call.write (some name) (some contents)) d =
    (write_file (text name_max name) (text content_max contents) d).1
meant (Call.remove none) d = d
meant (Call.remove (some name)) d = (remove_file (text name_max name) d).1

unfoldable pub all_meant : List Call → Directory → Directory
all_meant [] d = d
all_meant (call ∷ calls) d = all_meant calls (meant call d)

pub small_count : (s : Ramfs) → WellFormed (directory s) → s.file_count ≤ max_files
small_count s w = omega (arith, w.small, length-entries_from s.files 0 s.file_count)

step-meant :
    (call : Call) (s : Ramfs)
    → WellFormed (directory s)
    → directory (step call s) ≡ meant call (directory s)
unfolding step meant ramfs_write_file ramfs_remove_file
step-meant (Call.write none contents) s w = refl
step-meant (Call.write (some name) none) s w = refl
step-meant (Call.write (some name) (some contents)) s w =
    ap (λ (o : Bool × Directory). o.1) (write_file_refines name contents s (small_count s w))
step-meant (Call.remove none) s w = refl
step-meant (Call.remove (some name)) s w =
    ap (λ (o : Bool × Directory). o.1) (remove_file_refines name s w)

meant-WellFormed : (call : Call) (d : Directory) → WellFormed d → WellFormed (meant call d)
unfolding meant
meant-WellFormed (Call.write none contents) d w = w
meant-WellFormed (Call.write (some name) none) d w = w
meant-WellFormed (Call.write (some name) (some contents)) d w = write_file-WellFormed _ _ d w
meant-WellFormed (Call.remove none) d w = w
meant-WellFormed (Call.remove (some name)) d w = remove_file-WellFormed _ d w

-- Any writes and removals, from a well-formed table on: the table stands for what the same calls mean
-- on its directory, and it stays well formed, with at most 16 files, all of valid and different names
-- and with contents that end within their arrays.
pub run_refines :
    (calls : List Call) (s : Ramfs)
    → WellFormed (directory s)
    → (directory (run calls s) ≡ all_meant calls (directory s))
      × WellFormed (directory (run calls s))
unfolding run all_meant
run_refines [] s w = (refl, w)
run_refines (call ∷ calls) s w =
    let e : directory (step call s) ≡ meant call (directory s) = step-meant call s w in
    let rest =
      run_refines calls (step call s)
        (subst WellFormed (sym e) (meant-WellFormed call (directory s) w)) in
    (rest.0 ∙ ap (all_meant calls) e, rest.1)
