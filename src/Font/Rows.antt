-- ===== src/Font/Rows.antt =====
-- A character of genvgafonts.c: what is read of the file, and the rows that are drawn of it.
use ajardsp.Common.{
  ℕ, zero, suc, ◌+◌, ◌-◌, ◌*◌, ◌/◌, ◌^◌, ◌%◌, ◌<◌, ◌≤◌, ◌==◌, ◌≡◌, refl, ap, arith, ltb,
  if◌then◌else◌,
}
use ajardsp.Common.{some, List, [], ◌∷◌, length, get_elem?, CString, good}
use ajardsp.Font.{Read, fread_over, pixel, pixels, drawn}

-- The number whose binary digits a row shows, the highest first.
unfoldable pub row_value : ℕ → CString → ℕ
row_value acc [] = acc
row_value acc (c ∷ row) = row_value (2 * acc + (if c == b'X' then 1 else 0)) row

digit : (b j : ℕ) → (if pixel b j == b'X' then 1 else 0) ≡ b / 2 ^ (7 - j) % 2
digit b j = ground arith

pub row_value-pixels : (b : ℕ) → row_value 0 (pixels b) ≡ b % 256
unfolding row_value pixels
row_value-pixels b =
    omega (
      arith,
      digit b 0,
      digit b 1,
      digit b 2,
      digit b 3,
      digit b 4,
      digit b 5,
      digit b 6,
      digit b 7,
    )

-- What stands behind the first bytes of a file.
unfoldable pub drop : ℕ → List ℕ → List ℕ
drop zero file = file
drop (suc n) [] = []
drop (suc n) (c ∷ file) = drop n file

pub length-drop : (n : ℕ) (file : List ℕ) → length (drop n file) ≡ length file - n
unfolding drop
length-drop zero file = omega arith
length-drop (suc n) [] = omega arith
length-drop (suc n) (c ∷ file) = omega (arith, length-drop n file)

-- What holds of the positions below `n` of two lists holds below `n + 1` of the lists with one more
-- in front.
unfoldable pub Carried {ℓ} : {B : Type ℓ} → (ℕ → B) → ℕ → List ℕ → List B → Type ℓ
Carried f n xs ys = (i c : ℕ) → i < n → get_elem? xs i ≡ some c → get_elem? ys i ≡ some (f c)

cons-Carried {ℓ} :
    {B : Type ℓ} (f : ℕ → B) (n b : ℕ) (xs : List ℕ) (ys : List B)
    → Carried f n xs ys
    → Carried f (suc n) (b ∷ xs) (f b ∷ ys)
unfolding Carried
cons-Carried f n b xs ys h zero c k e = ground arith
cons-Carried f n b xs ys h (suc i) c k e = h i c (omega arith) e

-- A read that stays in the buffer.
pub record ReadOver (n : ℕ) (file buf : List ℕ) : Type 0 where
  pub read : Read
  pub gives : fread_over n file buf ≡ good read
  pub room : length read.buf ≡ length buf
  pub left : read.rest ≡ drop n file
  pub ends : read.eof ≡ ltb (length file) n
  pub bytes : Carried (λ c. c) n file read.buf

pub fread_over-ReadOver : (n : ℕ) (file buf : List ℕ) → n ≤ length buf → ReadOver n file buf
unfolding fread_over drop Carried
fread_over-ReadOver zero file buf h = record {
  read = _;
  gives = refl;
  room = refl;
  left = refl;
  ends = ground arith;
  bytes = λ i c k e. absurd (omega arith);
}
fread_over-ReadOver (suc n) [] buf h = record {
  read = _;
  gives = refl;
  room = refl;
  left = refl;
  ends = ground arith;
  bytes = λ i c k e. cc;
}
fread_over-ReadOver (suc n) (c ∷ file) [] h = absurd (omega arith)
fread_over-ReadOver (suc n) (c ∷ file) (b ∷ buf) h =
    let r = fread_over-ReadOver n file buf (omega arith) in
    record {
      read = record { buf = c ∷ r.read.buf; rest = r.read.rest; eof = r.read.eof };
      gives = rw (r.gives) refl;
      room = ap suc r.room;
      left = r.left;
      ends = ground (arith, r.ends);
      bytes = cons-Carried (λ c. c) n c file r.read.buf r.bytes;
    }

-- The rows are drawn from the bytes of the buffer, as many as are asked for.
pub drawn-pixels :
    (n : ℕ) (buf : List ℕ)
    → n ≤ length buf
    → (rows : List CString) × (drawn n buf ≡ good rows)
      × (length rows ≡ n)
      × Carried pixels n buf rows
unfolding drawn Carried
drawn-pixels zero buf h = ([], refl, refl, λ i c k e. absurd (omega arith))
drawn-pixels (suc n) [] h = absurd (omega arith)
drawn-pixels (suc n) (b ∷ buf) h =
    let (rows, drawn_so, size, all_rows) = drawn-pixels n buf (omega arith) in
    (pixels b ∷ rows, rw (drawn_so) refl, ap suc size, cons-Carried pixels n b buf rows all_rows)
