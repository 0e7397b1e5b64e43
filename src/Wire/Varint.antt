-- ===== src/Wire/Varint.antt =====
-- The variable-length numbers of `SchemaId` (src/serdes/Serde.cpp): what the reader's loop makes of
-- what the writer's loop wrote.
use mathlib.Core.List.{append-nil, append_assoc}
use mathlib.Core.Logic.{dif_pos}
use mathlib.Core.WellFounded.{Acc}
use native.Mathlib.Nat.{add-zero, div-add-mod, mul-le-mul_right, pow-suc}
use native.Mathlib.Bridge.{le_prop}
use native.Mathlib.Numerals.{towards_suc}
use libschemaregistry.Outcome.{ok}
use libschemaregistry.Prelude.{
  ℕ, zero, suc, ◌+◌, ◌*◌, ◌/◌, ◌%◌, ◌^◌, ◌≤◌, ◌<◌, List, [], ◌∷◌, ◌++◌, ◌≡◌, refl, ap, ◌∙◌, All,
  arith, length, length-append, dec_le,
}
use libschemaregistry.Wire.{
  or_shifted, read_varint, read_values, put_varint_acc, put_varint, put_varints, lt_wf,
}

-- An `int32_t` that is not negative.
abbrev pub IsIndex : ℕ → Type 0
IsIndex v = v < 2 ^ 31

-- What is left of a value after some groups of seven bits, in the room that is left for it.
module _ (shift v room : ℕ) (fits : 2 ^ shift * room ≡ 2 ^ 28) (small : v < 8 * room) where
  power_pos : 0 < 2 ^ shift
  power_pos = grind arith

  scaled : v * 2 ^ shift < 2 ^ 31
  scaled = omega (arith, mul-le-mul_right (2 ^ shift) small, fits, power_pos)

  group : v % 128 * 2 ^ shift < 2 ^ 31
  group = grind (arith, scaled)

shift_seven : (s : ℕ) → 2 ^ (s + 7) ≡ 128 * 2 ^ s
shift_seven s = simp towards_suc (omega arith)

split_group : (v s : ℕ) → v * 2 ^ s ≡ v % 128 * 2 ^ s + v / 128 * 2 ^ (s + 7)
split_group v s = omega (
  arith,
  ap (λ (t : ℕ). t * 2 ^ s) (div-add-mod v 128),
  ap (λ (t : ℕ). v / 128 * t) (shift_seven s),
)

next_room : (shift k : ℕ) → 2 ^ shift * 128 ^ suc k ≡ 2 ^ 28 → 2 ^ (shift + 7) * 128 ^ k ≡ 2 ^ 28
next_room shift k p =
    omega (arith, rw pow-suc at p, ap (λ (t : ℕ). t * 128 ^ k) (shift_seven shift))

-- The two ways in which a round of the writer's loop goes.
put_last : (v : ℕ) (w : Acc ◌<◌ v) → v < 128 → put_varint_acc v w ≡ v ∷ []
unfolding put_varint_acc
put_last v (Acc.intro _ smaller) h = ground arith

put_more :
    (v : ℕ) (w : Acc ◌<◌ v)
    → 128 ≤ v
    → IsIndex v
    → (w' : Acc ◌<◌ (v / 128)) × (put_varint_acc v w
        ≡ (v % 128 + 128) ∷ put_varint_acc (v / 128) w')
unfolding put_varint_acc
put_more v (Acc.intro _ smaller) h i =
    (smaller (v / 128) (omega arith), rw (dif_pos (dec_le 128 v) le_prop h) (ground arith))

-- The two ways in which a round of the reader's loop goes.
read_last :
    (v acc shift pos : ℕ) (rest : List ℕ)
    → v < 128
    → shift < 32
    → v * 2 ^ shift < 2 ^ 31
    → read_varint (v ∷ rest) acc shift pos ≡ ok (acc + v * 2 ^ shift, pos + 1, rest)
unfolding read_varint or_shifted
read_last v acc shift pos rest h s f = ground arith

read_more :
    (g acc shift pos : ℕ) (rest : List ℕ)
    → g < 128
    → shift < 32
    → g * 2 ^ shift < 2 ^ 31
    → read_varint ((g + 128) ∷ rest) acc shift pos
      ≡ read_varint rest (acc + g * 2 ^ shift) (shift + 7) (pos + 1)
unfolding read_varint or_shifted
read_more g acc shift pos rest h s f = ground arith

-- Reading back a value in the `k` groups that are left, whatever follows it.
read_varint-put_varint_acc :
    (k shift v acc pos : ℕ) (w : Acc ◌<◌ v) (rest : List ℕ)
    → shift + 7 * k ≡ 28
    → 2 ^ shift * 128 ^ k ≡ 2 ^ 28
    → v < 8 * 128 ^ k
    → v < 2 ^ 31
    → read_varint (put_varint_acc v w ++ rest) acc shift pos
      ≡ ok (acc + v * 2 ^ shift, pos + length (put_varint_acc v w), rest)
read_varint-put_varint_acc zero shift v acc pos w rest e p h i =
    rw (put_last v w (omega arith))
      (read_last v acc shift pos rest (omega arith) (omega arith) (scaled shift v 1 p h))
read_varint-put_varint_acc (suc k) shift v acc pos w rest e p h i = elim (dec_le 128 v) [
  | no small ↦ rw (put_last v w (omega arith)) (
      read_last v acc shift pos rest (omega arith) (omega arith) (scaled shift v (128 ^ suc k) p h))
  | yes large ↦
      let (w', e') = put_more v w large i in
      let g : v % 128 * 2 ^ shift < 2 ^ 31 = group shift v (128 ^ suc k) p h in
      let ih =
        read_varint-put_varint_acc k (shift + 7) (v / 128) (acc + v % 128 * 2 ^ shift) (pos + 1) w'
          rest (omega arith) (next_room shift k p) (omega (arith, pow-suc 128 k)) (omega arith) in
      rw e' (
        read_more (v % 128) acc shift pos _ (omega arith) (omega arith) g
        ∙ ground (arith, ih, split_group v shift))
]

-- What `put_varint` wrote for a value that is not negative is read back, whatever follows it.
pub read_varint-put_varint :
    (v pos : ℕ) (rest : List ℕ)
    → IsIndex v
    → read_varint (put_varint v ++ rest) 0 0 pos ≡ ok (v, pos + length (put_varint v), rest)
unfolding put_varint
read_varint-put_varint v pos rest h =
    ground (arith, read_varint-put_varint_acc 4 0 v 0 pos (lt_wf.apply v) rest refl refl h h)

-- What is written for a value is never empty, and begins with a zero byte only for zero.
pub put_varint-cons :
    (v : ℕ) → IsIndex v → (b : ℕ) × (bs : List ℕ) × (put_varint v ≡ b ∷ bs) × (0 < v → 0 < b)
unfolding put_varint
put_varint-cons v h = elim (dec_le 128 v) [
  | no small ↦ (v, [], put_last v (lt_wf.apply v) (omega arith), λ h. h)
  | yes large ↦
      let (w', e) = put_more v (lt_wf.apply v) large h in (v % 128 + 128, _, e, omega arith)
]

-- One round of the reader's second loop, on what was written for one value.
read_values_step :
    (n v pos : ℕ) (rest out : List ℕ)
    → IsIndex v
    → read_values (suc n) (put_varint v ++ rest) pos out
      ≡ read_values n rest (pos + length (put_varint v)) (out ++ v ∷ [])
unfolding read_values
read_values_step n v pos rest out h =
    let (b, bs, e, _) = put_varint-cons v h in
    ground (arith, e, read_varint-put_varint v pos rest h)

-- A list of values is read back in order.
pub read_values-put_varints :
    (vs out : List ℕ) (pos : ℕ) (rest : List ℕ)
    → All IsIndex vs
    → read_values (length vs) (put_varints vs ++ rest) pos out
      ≡ ok (out ++ vs, pos + length (put_varints vs))
unfolding put_varints
read_values-put_varints [] out pos rest h = unfold read_values in rw (append-nil, add-zero)
read_values-put_varints (v ∷ vs) out pos rest (hv, hvs) =
    rw (append_assoc, read_values_step (length vs) v pos (put_varints vs ++ rest) out hv)
      (ground (
        arith,
        read_values-put_varints vs (out ++ v ∷ []) (pos + length (put_varint v)) rest hvs,
        append_assoc out (v ∷ []) vs,
        length-append (put_varint v) (put_varints vs),
      ))
