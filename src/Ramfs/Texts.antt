-- ===== src/Ramfs/Texts.antt =====
-- Texts of fs/ramfs.c as lists of bytes: what its functions on texts compute.
use efes_os.Base.{
  ℕ, zero, suc, ◌+◌, ◌-◌, ◌<◌, ◌≤◌, ◌≡◌, ◌↔◌, refl, ap₂, subst, ◌∙◌, Bool, true, false, not, ◌&&◌,
  List, [], ◌∷◌, length, all, some, ◌==◌, ltb, if◌then◌else◌, arith,
}
use efes_os.Base.Arrays.{update}
use efes_os.Ramfs.{
  Text, name_max, equals_from, string_equals, length_from, string_length, is_refused,
  name_bytes_are_valid, valid_name, copy_bytes, copy_string,
}

-- The bytes from `index` on up to the first zero byte, `n` at most.
unfoldable pub text_from : Text → ℕ → ℕ → List ℕ
text_from value index zero = []
text_from value index (suc n) =
    if value index == 0 then [] else value index ∷ text_from value (index + 1) n

abbrev pub text : ℕ → Text → List ℕ
text limit value = text_from value 0 limit

unfoldable pub bytes_equal : List ℕ → List ℕ → Bool
bytes_equal [] [] = true
bytes_equal [] (b ∷ ys) = false
bytes_equal (a ∷ xs) [] = false
bytes_equal (a ∷ xs) (b ∷ ys) = (a == b) && bytes_equal xs ys

pub bytes_equal→eq : (xs ys : List ℕ) → bytes_equal xs ys ≡ true → xs ≡ ys
unfolding bytes_equal
bytes_equal→eq [] [] h = refl
bytes_equal→eq [] (b ∷ ys) h = absurd (ground arith)
bytes_equal→eq (a ∷ xs) [] h = absurd (ground arith)
bytes_equal→eq (a ∷ xs) (b ∷ ys) h = ap₂ ◌∷◌ (ground arith) (bytes_equal→eq xs ys (ground arith))

pub bytes_equal_self : (xs : List ℕ) → bytes_equal xs xs ≡ true
unfolding bytes_equal
bytes_equal_self [] = refl
bytes_equal_self (a ∷ xs) = ground (arith, bytes_equal_self xs)

equals_from-text :
    (left right : Text) (i n : ℕ)
    → equals_from left right i n ≡ bytes_equal (text_from left i n) (text_from right i n)
unfolding equals_from text_from bytes_equal
equals_from-text left right i zero = refl
equals_from-text left right i (suc n) = ground (arith, equals_from-text left right (i + 1) n)

pub string_equals-text :
    (left right : Text)
    → string_equals left right ≡ bytes_equal (text name_max left) (text name_max right)
unfolding string_equals
string_equals-text left right = equals_from-text left right 0 name_max

-- Where the first text ends within `n` bytes, the comparison has ended after `n` rounds: with any
-- greater number of rounds it has the same answer.
pub equals_from-enough :
    (left right : Text) (i n more : ℕ)
    → length (text_from left i n) < n
    → n ≤ more
    → equals_from left right i more ≡ equals_from left right i n
unfolding equals_from text_from
equals_from-enough left right i zero more h p = absurd (omega arith)
equals_from-enough left right i (suc n) zero h p = absurd (omega arith)
equals_from-enough left right i (suc n) (suc more) h p =
    ground (arith, equals_from-enough left right (i + 1) n more)

length_from-text :
    (value : Text) (i n : ℕ) → length_from value i n ≡ i + length (text_from value i n)
unfolding length_from text_from
length_from-text value i zero = omega arith
length_from-text value i (suc n) = ground (arith, length_from-text value (i + 1) n)

pub string_length-text :
    (value : Text) (limit : ℕ) → string_length (some value) limit ≡ length (text limit value)
unfolding string_length
string_length-text value limit = omega (arith, length_from-text value 0 limit)

pub length-text_from : (value : Text) (i n : ℕ) → length (text_from value i n) ≤ n
unfolding text_from
length-text_from value i zero = omega arith
length-text_from value i (suc n) = ground (arith, length-text_from value (i + 1) n)

-- A name as a list of bytes.
unfoldable pub name_is_valid : List ℕ → Bool
name_is_valid name =
    not (length name == 0)
    && ltb (length name) name_max
    && all (λ character. not (is_refused character)) name

name_bytes_are_valid-text :
    (value : Text) (i n : ℕ)
    → name_bytes_are_valid value i (length (text_from value i n))
      ≡ all (λ character. not (is_refused character)) (text_from value i n)
unfolding name_bytes_are_valid text_from
name_bytes_are_valid-text value i zero = refl
name_bytes_are_valid-text value i (suc n) =
    ground (arith, name_bytes_are_valid-text value (i + 1) n)

pub valid_name-text : (name : Text) → valid_name (some name) ≡ name_is_valid (text name_max name)
unfolding valid_name name_is_valid
valid_name-text name =
    rw (string_length-text name name_max)
      (ground (arith, name_bytes_are_valid-text name 0 name_max))

-- A text that ends within `suc n` bytes has `n` bytes at most.
pub text_from-fits :
    (value : Text) (i n : ℕ)
    → length (text_from value i (suc n)) ≤ n
    → text_from value i n ≡ text_from value i (suc n)
unfolding text_from
text_from-fits value i zero h = ground arith
text_from-fits value i (suc n) h = ground (arith, text_from-fits value (i + 1) n)

copy_bytes-below :
    (source : Text) (i n : ℕ) (destination : Text) (j : ℕ)
    → j < i
    → copy_bytes source i n destination j ≡ destination j
unfolding copy_bytes
copy_bytes-below source i zero d j h = ground arith
copy_bytes-below source i (suc n) d j h =
    ground (arith, copy_bytes-below source (i + 1) n (update d i (source i)) j)

copy_bytes-text :
    (source : Text) (i n : ℕ) (destination : Text)
    → text_from (copy_bytes source i n destination) i (suc n) ≡ text_from source i n
unfolding copy_bytes text_from
copy_bytes-text source i zero d = ground arith
copy_bytes-text source i (suc n) d = ground (
  arith,
  copy_bytes-text source (i + 1) n (update d i (source i)),
  copy_bytes-below source (i + 1) n (update d i (source i)) i,
)

-- A copy is cut off so that it ends within its array.
pub copy_string-text :
    (destination source : Text) (n : ℕ)
    → text (suc n) (copy_string destination source (suc n)) ≡ text n source
unfolding copy_string
copy_string-text d s n = let e : suc n - 1 ≡ n = omega arith in rw e (copy_bytes-text s 0 n d)

pub bytes_equal_iff : (xs ys : List ℕ) → (bytes_equal xs ys ≡ true) ↔ (xs ≡ ys)
bytes_equal_iff xs ys =
    (bytes_equal→eq xs ys, λ e. subst (λ zs. bytes_equal xs zs ≡ true) e (bytes_equal_self xs))

-- A text that fits is copied whole.
pub copy_string-fits :
    (destination source : Text) (n : ℕ)
    → length (text (suc n) source) < suc n
    → text (suc n) (copy_string destination source (suc n)) ≡ text (suc n) source
copy_string-fits d s n h = copy_string-text d s n ∙ text_from-fits s 0 n (omega arith)
