-- ===== src/Datum/Total.antt =====
-- `ReadDatum` and `readProperties` (information.go): how they end, and what they take of a buffer.
use go_bde.Base.{
  ℕ, zero, suc, ◌+◌, ◌-◌, ◌≤◌, ◌<◌, arith, length, leb, ltb, length-drop, inl, inr, Bool-cases,
}
use go_bde.Base.Bytes.{Bytes}
use go_bde.Types.{FveDatum, fve_datum_size, decode_datum, Structure}
use go_bde.Datum.{
  Datum, Datums, header, Parse, got, end_of_buffer, no_fuel, ◌>>=◌, read_full, Tail, payload_tail,
  property_tail, no_tail, layout, read_tail, read_datum_with, next_property, read_properties,
  read_datum,
}

-- The parser had fuel, and took k of the n bytes at least.
abbrev pub Takes {ℓ} : {A : Type ℓ} → ℕ → ℕ → Parse A → Type 0
Takes k n (got a rest) = length rest + k ≤ n
Takes k n end_of_buffer = Unit
Takes k n no_fuel = ⊥

-- It found a value, and n bytes at most are left.
abbrev pub Finds {ℓ} : {A : Type ℓ} → ℕ → Parse A → Type 0
Finds n (got a rest) = length rest ≤ n
Finds n end_of_buffer = ⊥
Finds n no_fuel = ⊥

-- The rule for a step: what it leaves is what the rest starts with.
Takes-bind {ℓ κ} :
    {A : Type ℓ} {B : Type κ} (m : Parse A) (f : A → Bytes → Parse B) (j k n : ℕ)
    → Takes j n m
    → ((a : A) (rest : Bytes) → length rest + j ≤ n → Takes k n (f a rest))
    → Takes k n (m >>= f)
Takes-bind (got a rest) f j k n h next = next a rest h
Takes-bind end_of_buffer f j k n h next = tt
Takes-bind no_fuel f j k n h next = h

Finds-bind {ℓ κ} :
    {A : Type ℓ} {B : Type κ} (m : Parse A) (f : A → Bytes → Parse B) (k n : ℕ)
    → Finds k m
    → ((a : A) (rest : Bytes) → length rest ≤ k → Finds n (f a rest))
    → Finds n (m >>= f)
Finds-bind (got a rest) f k n h next = next a rest h
Finds-bind end_of_buffer f k n h next = h
Finds-bind no_fuel f k n h next = h

Takes-of_Finds {ℓ} : {A : Type ℓ} (n : ℕ) (m : Parse A) → Finds n m → Takes 0 n m
Takes-of_Finds n (got a rest) h = omega arith
Takes-of_Finds n end_of_buffer h = tt
Takes-of_Finds n no_fuel h = h

Takes-weaken {ℓ} :
    {A : Type ℓ} (j k n total : ℕ) (m : Parse A) → Takes j n m → n + k ≤ total + j → Takes k total m
Takes-weaken j k n total (got a rest) h le = omega arith
Takes-weaken j k n total end_of_buffer h le = tt
Takes-weaken j k n total no_fuel h le = h

read_full-Takes : (n : ℕ) (bytes : Bytes) → Takes n (length bytes) (read_full n bytes)
unfolding read_full
read_full-Takes n bytes = elim (Bool-cases (leb n (length bytes))) [
  | inl e ↦ rw e (ground (arith, length-drop n bytes))
  | inr e ↦ rw e tt
]

-- A reader of properties that ends with a value on every buffer below a length.
abbrev Works : ℕ → (ℕ → Bytes → Parse Datums) → Type 0
Works k props = (n : ℕ) (bytes : Bytes) → length bytes < k → Finds (length bytes) (props n bytes)

read_tail-Takes :
    (t : Tail) (h : FveDatum) (s : Structure) (n : ℕ) (props : ℕ → Bytes → Parse Datums) (k : ℕ)
    (bytes : Bytes)
    → Works k props
    → length bytes < k
    → Takes 0 (length bytes) (read_tail t h s n props bytes)
unfolding read_tail
read_tail-Takes payload_tail h s n props k bytes w lt =
    Takes-bind (read_full n bytes) _ n 0 _ (read_full-Takes n bytes) (λ a rest l. omega arith)
read_tail-Takes property_tail h s n props k bytes w lt =
    Takes-bind (props n bytes) _ 0 0 _ (Takes-of_Finds _ (props n bytes) (w n bytes lt))
      (λ a rest l. l)
read_tail-Takes no_tail h s n props k bytes w lt = omega arith

-- A datum takes its 8 bytes of header at least.
read_datum_with-Takes :
    (props : ℕ → Bytes → Parse Datums) (k : ℕ) (bytes : Bytes)
    → Works k props
    → length bytes < k + fve_datum_size
    → Takes fve_datum_size (length bytes) (read_datum_with props bytes)
unfolding read_datum_with
read_datum_with-Takes props k bytes w lt =
    Takes-bind (read_full fve_datum_size bytes) _ fve_datum_size fve_datum_size _
      (read_full-Takes fve_datum_size bytes)
      λ head rest l.
        let n : ℕ = (layout (decode_datum head).typ).struct_size in
        Takes-weaken 0 fve_datum_size (length rest) (length bytes) _
          (Takes-bind (read_full n rest) _ n 0 (length rest) (read_full-Takes n rest)
            λ struct rest' l'.
              Takes-weaken 0 0 (length rest') (length rest) _
                (read_tail-Takes (layout (decode_datum head).typ).tail _ _ _ props k rest' w
                  (omega arith))
                (omega arith))
          (omega arith)

next_property-Finds :
    (m : Parse Datum) (n size : ℕ) (again : ℕ → Bytes → Parse Datums) (k : ℕ)
    → Takes 1 n m
    → n ≤ k
    → Works k again
    → Finds n (next_property m size again)
unfolding next_property
next_property-Finds (got d rest) n size again k h lt w =
    Finds-bind (again (size - (header d).size) rest) _ (length rest) n (w _ rest (omega arith))
      (λ ps rest' l. omega arith)
next_property-Finds end_of_buffer n size again k h lt w = omega arith
next_property-Finds no_fuel n size again k h lt w = absurd h

read_properties-Finds : (fuel : ℕ) → Works fuel (read_properties fuel)
unfolding read_properties
read_properties-Finds zero n bytes lt = absurd (omega arith)
read_properties-Finds (suc fuel) n bytes lt = elim (Bool-cases (ltb n fve_datum_size)) [
  | inl e ↦ rw (e, read_properties) (omega arith)
  | inr e ↦
      rw (e, read_properties)
        (next_property-Finds (read_datum_with (read_properties fuel) bytes) (length bytes) n
          (read_properties fuel) fuel
          (Takes-weaken fve_datum_size 1 (length bytes) (length bytes) _
            (read_datum_with-Takes (read_properties fuel) fuel bytes (read_properties-Finds fuel)
              (omega arith))
            (omega arith))
          (omega arith) (read_properties-Finds fuel))
]

-- `ReadDatum` ends on every buffer: with a datum, and at least 8 bytes fewer left, or at the end of
-- the buffer. Within it, `readProperties` ends on every buffer, also one that is cut off, and for
-- every size of data with a list of properties, never with an error, and leaves no more than it
-- got.
pub read_datum-Takes :
    (bytes : Bytes)
    → Takes fve_datum_size (length bytes) (read_datum bytes)
      × ((n : ℕ) → Finds (length bytes) (read_properties (suc (length bytes)) n bytes))
unfolding read_datum
read_datum-Takes bytes = (
  read_datum_with-Takes (read_properties (suc (length bytes))) (suc (length bytes)) bytes
      (read_properties-Finds (suc (length bytes))) (omega arith),
  λ n. read_properties-Finds (suc (length bytes)) n bytes (omega arith),
)
