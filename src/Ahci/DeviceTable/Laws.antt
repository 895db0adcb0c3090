-- ===== src/Ahci/DeviceTable/Laws.antt =====
-- The table holds only ready disks that take no writes, no two of one port.
use native.Mathlib.Decide.{dec_lt}
use mathlib.Core.Option.{some-injective}
use efes_os.Base.{
  ℕ, zero, suc, ◌+◌, ◌<◌, ◌≤◌, ◌≡◌, ◌≢◌, ◌⊎◌, inl, inr, refl, ap, sym, ◌∙◌, subst, Bool, true,
  false, not, ◌&&◌, ◌||◌, Option, none, some, is_some, ◌==◌, ltb, leb, if◌then◌else◌, if_each,
  arith, Option-cases, ==_iff, List, [], ◌∷◌,
}
use efes_os.Base.Words.{add32}
use efes_os.Base.Arrays.{update}
use efes_os.BlockDevice.{
  BlockDevice, Transfer, block_device_is_ready, block_device_can_write, block_device_sector_count,
}
use efes_os.BlockDevice.Requests.{block_device_configure-is_ready}
use efes_os.Ahci.Layout.{Words, identify_capacity}
use efes_os.Ahci.DeviceTable.{
  DeviceRecord, DeviceTable, table_magic, table_max, reset_device, cleared_record, table_is_valid,
  no_index, table_reset, has_port, place, append, add,
}

-- One call of the registration.
pub record Registration (World Buffer : Type 0) : Type 0 where
  pub controller_index : ℕ
  pub port : ℕ
  pub validation_generation : ℕ
  pub identify : Option Words
  pub read : Option (Transfer World ℕ Buffer)

module _ {World Buffer : Type 0} where
  -- A disk that requests may be sent to.
  pub record Entry (r : DeviceRecord World Buffer) : Type 0 where
    pub ready : block_device_is_ready (some r.block_device) ≡ true
    pub read_only : block_device_can_write (some r.block_device) ≡ false
    pub capacity : block_device_sector_count (some r.block_device) ≡ r.sector_count
    pub port_range : r.port < 32

  pub record Listed (t : DeviceTable World Buffer) : Type 0 where
    pub magic_set : t.magic ≡ table_magic
    pub count_range : t.count ≤ table_max
    pub entries : (i : ℕ) → i < t.count → Entry (t.records i)
    pub distinct :
        (i j : ℕ)
        → i < t.count
        → j < t.count
        → (t.records i).controller_index ≡ (t.records j).controller_index
        → (t.records i).port ≡ (t.records j).port
        → i ≡ j

  has_port-absent :
      (records : ℕ → DeviceRecord World Buffer) (c p n index : ℕ)
      → has_port records c p n index ≡ false
      → (i : ℕ) → index ≤ i
      → i < index + n
      → (records i).controller_index ≡ c
      → (records i).port ≢ p
  unfolding has_port
  has_port-absent records c p zero index h i low high same_controller same_port =
      absurd (omega arith)
  has_port-absent records c p (suc n) index h i low high same_controller same_port =
      elim (dec_lt index i) [
        | yes later ↦
            has_port-absent records c p n (index + 1) (ground arith) i (omega arith) (omega arith)
              same_controller same_port
        | no first ↦
            let e : i ≡ index = omega arith in
            let c' : (records index).controller_index ≡ c = rw (sym e) same_controller in
            let p' : (records index).port ≡ p = rw (sym e) same_port in absurd (ground arith)
      ]

  -- The first free record gets `r`.
  extended : DeviceTable World Buffer → DeviceRecord World Buffer → DeviceTable World Buffer
  extended t r = record t { records = update t.records t.count r; count = add32 t.count 1 }

  extended-Listed :
      (t : DeviceTable World Buffer) (r : DeviceRecord World Buffer)
      → Listed t
      → t.count < table_max
      → Entry r
      → ((i : ℕ)
          → i < t.count
          → (t.records i).controller_index ≡ r.controller_index
          → (t.records i).port ≢ r.port)
      → Listed (extended t r)
  unfolding extended
  extended-Listed t r l room entry fresh = record {
    magic_set = l.magic_set;
    count_range = omega arith;
    entries = λ i h.
        if_each Entry (i == t.count) r (t.records i) (λ e. entry) (λ e. l.entries i (ground arith));
    distinct = λ i j hi hj same_controller same_port. elim (slot i hi) [
      | inl (ei, ri) ↦ elim (slot j hj) [
        | inl (ej, rj) ↦ ei ∙ sym ej
        | inr (lj, rj) ↦ absurd (
            fresh j lj (sym (ap controller rj) ∙ sym same_controller ∙ ap controller ri)
              (sym (ap port_of rj) ∙ sym same_port ∙ ap port_of ri))
      ]
      | inr (li, ri) ↦ elim (slot j hj) [
        | inl (ej, rj) ↦ absurd (
            fresh i li (sym (ap controller ri) ∙ same_controller ∙ ap controller rj)
              (sym (ap port_of ri) ∙ same_port ∙ ap port_of rj))
        | inr (lj, rj) ↦
            l.distinct i j li lj (sym (ap controller ri) ∙ same_controller ∙ ap controller rj)
              (sym (ap port_of ri) ∙ same_port ∙ ap port_of rj)
      ]
    ];
  }
    where
      controller : DeviceRecord World Buffer → ℕ
      controller d = d.controller_index

      port_of : DeviceRecord World Buffer → ℕ
      port_of d = d.port

      slot :
          (i : ℕ)
          → i < add32 t.count 1
          → ((i ≡ t.count) × (update t.records t.count r i ≡ r))
            ⊎ ((i < t.count) × (update t.records t.count r i ≡ t.records i))
      slot i h =
          if_each (λ d. ((i ≡ t.count) × (d ≡ r)) ⊎ ((i < t.count) × (d ≡ t.records i)))
            (i == t.count) r (t.records i) (λ e. inl ((==_iff i t.count).0 e, refl))
            (λ e. inr (ground arith, refl))

  -- A table that differs behind its count is as good.
  cleared-Listed :
      (t : DeviceTable World Buffer)
      → Listed t
      → Listed (record t { records = update t.records t.count cleared_record })
  cleared-Listed t l = record {
    magic_set = l.magic_set;
    count_range = l.count_range;
    entries = λ i h. subst Entry (sym (kept i h)) (l.entries i h);
    distinct = λ i j hi hj same_controller same_port.
        l.distinct i j hi hj
          (sym (ap (λ (d : DeviceRecord World Buffer). d.controller_index) (kept i hi))
            ∙ same_controller
            ∙ ap (λ (d : DeviceRecord World Buffer). d.controller_index) (kept j hj))
          (sym (ap (λ (d : DeviceRecord World Buffer). d.port) (kept i hi))
            ∙ same_port
            ∙ ap (λ (d : DeviceRecord World Buffer). d.port) (kept j hj));
  }
    where
      kept : (i : ℕ) → i < t.count → update t.records t.count cleared_record i ≡ t.records i
      kept i h =
          if_each (λ d. d ≡ t.records i) (i == t.count) cleared_record (t.records i)
            (λ e. absurd (ground arith)) (λ e. refl)

  place-Listed :
      (ok : Bool) (device : Option (BlockDevice World ℕ Buffer)) (r : DeviceRecord World Buffer)
      (t : DeviceTable World Buffer)
      → Listed t
      → t.count < table_max
      → r.port < 32
      → ok ≡ block_device_is_ready device
      → block_device_sector_count device ≡ (if ok then r.sector_count else 0)
      → block_device_can_write device ≡ (ok && false)
      → ((i : ℕ)
          → i < t.count
          → (t.records i).controller_index ≡ r.controller_index
          → (t.records i).port ≢ r.port)
      → Listed (place ok device r t).1
  unfolding place extended
  place-Listed false device r t l room range ready sectors no_write fresh = cleared-Listed t l
  place-Listed true none r t l room range ready sectors no_write fresh = cleared-Listed t l
  place-Listed true (some d) r t l room range ready sectors no_write fresh =
      extended-Listed t (record r { block_device = d }) l room
        (record { ready = sym ready; read_only = no_write; capacity = sectors; port_range = range })
        fresh

  append-Listed :
      (t : DeviceTable World Buffer) (controller_index port generation : ℕ) (identify : Words)
      (read : Option (Transfer World ℕ Buffer)) (capacity : ℕ × Bool)
      → Listed t
      → t.count < table_max
      → port < 32
      → has_port t.records controller_index port t.count 0 ≡ false
      → Listed (append controller_index port generation identify read capacity t).1
  unfolding append
  append-Listed t controller_index port generation identify read (sectors, lba48) l room range
        absent =
      let (ready, size, writes) =
        block_device_configure-is_ready reset_device sectors 512 8 read none (some t.count) in
      place-Listed _ _ _ t l room range ready size writes (λ i h.
        has_port-absent t.records controller_index port t.count 0 absent i (omega arith)
          (omega arith))

  unfoldable pub register :
      Registration World Buffer
      → Option (DeviceTable World Buffer)
      → Option (DeviceTable World Buffer)
  register r table =
      (add table r.controller_index r.port r.validation_generation r.identify r.read).1

  unfoldable pub register_all :
      List (Registration World Buffer)
      → Option (DeviceTable World Buffer)
      → Option (DeviceTable World Buffer)
  register_all [] table = table
  register_all (r ∷ rs) table = register_all rs (register r table)

  -- The table behind a pointer.
  pub Behind : Option (DeviceTable World Buffer) → Type 0
  Behind o = (t : DeviceTable World Buffer) → o ≡ some t → Listed t

  Behind-some : (t : DeviceTable World Buffer) → Listed t → Behind (some t)
  unfolding Behind
  Behind-some t l u e = subst Listed (some-injective t u e) l

  add-Behind :
      (t : DeviceTable World Buffer) (controller_index port generation : ℕ)
      (identify : Option Words) (read : Option (Transfer World ℕ Buffer))
      → Listed t
      → Behind (add (some t) controller_index port generation identify read).1
  unfolding add
  add-Behind t controller_index port generation none read l = Behind-some t l
  add-Behind t controller_index port generation (some identify) read l =
      if_each Good
        (not (table_is_valid (some t))
          || (t.count == table_max)
          || (controller_index == no_index)
          || leb 32 port
          || (generation == 0)
          || not (is_some read))
        (false, some t) _ (λ refused. Behind-some t l)
        (λ allowed. elim (Option-cases (identify_capacity (some identify))) [
          | inl e ↦ rw e (Behind-some t l)
          | inr (capacity, e) ↦ rw e (
              if_each Good (has_port t.records controller_index port t.count 0) (false, some t) _
                (λ refused. Behind-some t l)
                (λ absent. Behind-some _ (
                  append-Listed t controller_index port generation identify read capacity l
                    (let r : t.count ≤ table_max = l.count_range in ground arith) (ground arith)
                    absent)))
        ])
    where
      Good : Bool × Option (DeviceTable World Buffer) → Type 0
      Good o = Behind o.1

  register_all-Behind :
      (rs : List (Registration World Buffer)) (o : Option (DeviceTable World Buffer))
      → Behind o
      → Behind (register_all rs o)
  unfolding register_all register Behind add
  register_all-Behind [] o b = b
  register_all-Behind (r ∷ rs) none b = register_all-Behind rs none b
  register_all-Behind (r ∷ rs) (some t) b =
      register_all-Behind rs (register r (some t)) (
        add-Behind t r.controller_index r.port r.validation_generation r.identify r.read (b t refl))

  -- After a reset and any sequence of registrations, accepted or refused, the table has at most eight
  -- disks; each is ready, takes no writes and has the capacity of its record and a port below 32; and
  -- no two of them have the same controller and port.
  pub register_all-Listed :
      (rs : List (Registration World Buffer)) (t u : DeviceTable World Buffer)
      → register_all rs (table_reset (some t)) ≡ some u
      → Listed u
  unfolding table_reset Behind
  register_all-Listed rs t u e =
      register_all-Behind rs (some emptied) (Behind-some emptied empty_lem) u e
    where
      emptied : DeviceTable World Buffer
      emptied = record {
        magic = table_magic;
        count = 0;
        records = λ index. if ltb index table_max then cleared_record else t.records index;
      }

      empty_lem : Listed emptied
      empty_lem = record {
        magic_set = refl;
        count_range = omega arith;
        entries = λ i h. absurd (omega arith);
        distinct = λ i j hi hj sc sp. absurd (omega arith);
      }
