-- ===== src/Wire.antt =====
-- The packed structures of the headers, as the fields that lie in a packet one behind the other.
pub mod Nci
use e2f77dee9c9d8e2bfbcafc.Base.{
  ℕ, zero, suc, ◌+◌, ◌*◌, ◌/◌, ◌%◌, ◌^◌, ◌<◌, ◌≡◌, refl, sym, ap, ◌∙◌, arith, List, [], ◌∷◌, ◌++◌,
  length, take, drop, take-append, drop-append, length-append, All, All-append, subst,
}
use e2f77dee9c9d8e2bfbcafc.Memory.{Buf, IsByte, read, write, read-write_bytes}
use e2f77dee9c9d8e2bfbcafc.Bswap.{cpu_to_le16, cpu_to_le32}

-- A byte, two bit fields of four bits with the low one first, little-endian numbers, and an array of
-- bytes. A flexible array at the end of a structure has no size of its own, and is no field.
pub data Field : Type 0 where
  u8 nibbles le16 le32 : Field
  array : ℕ → Field

abbrev pub size : Field → ℕ
size u8 = 1
size nibbles = 1
size le16 = 2
size le32 = 4
size (array n) = n

abbrev pub Value : Field → Type 0
Value u8 = ℕ
Value nibbles = ℕ × ℕ
Value le16 = ℕ
Value le32 = ℕ
Value (array n) = List ℕ

-- The value fits its field.
abbrev pub Fits : (f : Field) → Value f → Type 0
Fits u8 x = x < 256
Fits nibbles (low, high) = (low < 16) × (high < 16)
Fits le16 x = x < 2 ^ 16
Fits le32 x = x < 2 ^ 32
Fits (array n) xs = (length xs ≡ n) × All IsByte xs

abbrev pub put : (f : Field) → Value f → List ℕ
put u8 x = x ∷ []
put nibbles (low, high) = (high * 16 + low) ∷ []
put le16 x = cpu_to_le16 x
put le32 x = cpu_to_le32 x
put (array n) xs = xs

abbrev byte_at : List ℕ → ℕ → ℕ
byte_at [] i = 0
byte_at (x ∷ xs) zero = x
byte_at (x ∷ xs) (suc i) = byte_at xs i

-- The value of a field, from its bytes.
abbrev pub get : (f : Field) → List ℕ → Value f
get u8 xs = byte_at xs 0
get nibbles xs = (byte_at xs 0 % 16, byte_at xs 0 / 16)
get le16 xs = byte_at xs 0 + byte_at xs 1 * 2 ^ 8
get le32 xs = byte_at xs 0 + byte_at xs 1 * 2 ^ 8 + byte_at xs 2 * 2 ^ 16 + byte_at xs 3 * 2 ^ 24
get (array n) xs = xs

get-put : (f : Field) (x : Value f) → Fits f x → get f (put f x) ≡ x
get-put u8 x h = refl
get-put nibbles (low, high) (l, h) = ground (arith)
get-put le16 x h = omega arith
get-put le32 x h = omega arith
get-put (array n) xs h = refl

length-put : (f : Field) (x : Value f) → Fits f x → length (put f x) ≡ size f
length-put u8 x h = refl
length-put nibbles (low, high) h = refl
length-put le16 x h = refl
length-put le32 x h = refl
length-put (array n) xs (h, _) = h

put-IsByte : (f : Field) (x : Value f) → Fits f x → All IsByte (put f x)
put-IsByte u8 x h = (h, tt)
put-IsByte nibbles (low, high) h = (omega arith, tt)
put-IsByte le16 x h = (omega arith, (omega arith, tt))
put-IsByte le32 x h = (omega arith, (omega arith, (omega arith, (omega arith, tt))))
put-IsByte (array n) xs (_, h) = h

-- A structure, and the values of its fields.
abbrev pub Struct : Type 0
Struct = List Field

abbrev pub Values : Struct → Type 0
Values [] = Unit {0}
Values (f ∷ s) = Value f × Values s

abbrev pub AllFit : (s : Struct) → Values s → Type 0
AllFit [] v = Unit {0}
AllFit (f ∷ s) (x, v) = Fits f x × AllFit s v

-- `sizeof`
abbrev pub sizeof : Struct → ℕ
sizeof [] = 0
sizeof (f ∷ s) = size f + sizeof s

abbrev pub pack : (s : Struct) → Values s → List ℕ
pack [] v = []
pack (f ∷ s) (x, v) = put f x ++ pack s v

abbrev pub unpack : (s : Struct) → List ℕ → Values s
unpack [] bytes = tt
unpack (f ∷ s) bytes = (get f (take (size f) bytes), unpack s (drop (size f) bytes))

-- The structure at offset `p` of a packet.
abbrev pub view : (s : Struct) → Buf → ℕ → Values s
view s b p = unpack s (read b p (sizeof s))

length-pack : (s : Struct) (v : Values s) → AllFit s v → length (pack s v) ≡ sizeof s
length-pack [] v h = refl
length-pack (f ∷ s) (x, v) (h, k) =
    length-append (put f x) (pack s v)
    ∙ (ap (λ n. n + length (pack s v)) (length-put f x h)
        ∙ ap (λ n. size f + n) (length-pack s v k))

pack-IsByte : (s : Struct) (v : Values s) → AllFit s v → All IsByte (pack s v)
pack-IsByte [] v h = tt
pack-IsByte (f ∷ s) (x, v) (h, k) =
    All-append IsByte (put f x) (pack s v) (put-IsByte f x h) (pack-IsByte s v k)

unpack-pack : (s : Struct) (v : Values s) → AllFit s v → unpack s (pack s v) ≡ v
unpack-pack [] v h = refl
unpack-pack (f ∷ s) (x, v) (h, k) =
    let n = length-put f x h in
    let field : get f (take (size f) (put f x ++ pack s v)) ≡ x =
      ap (λ m. get f (take m (put f x ++ pack s v))) (sym n)
      ∙ (ap (get f) (take-append (put f x) (pack s v)) ∙ get-put f x h) in
    let rest : unpack s (drop (size f) (put f x ++ pack s v)) ≡ v =
      ap (λ m. unpack s (drop m (put f x ++ pack s v))) (sym n)
      ∙ (ap (unpack s) (drop-append (put f x) (pack s v)) ∙ unpack-pack s v k) in
    rw (field, rest) refl

-- What is stored as a structure is read back as one.
pub view-pack :
    (s : Struct) (v : Values s) (b : Buf) (p : ℕ) → AllFit s v → view s (write b p (pack s v)) p ≡ v
view-pack s v b p h =
    ap (λ n. unpack s (read (write b p (pack s v)) p n)) (sym (length-pack s v h))
    ∙ (ap (unpack s) (read-write_bytes b p (pack s v) (pack-IsByte s v h)) ∙ unpack-pack s v h)
