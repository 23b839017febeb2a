-- ===== src/Depacketizer/Nal/Window.antt =====
-- The loops over start sequences stay within the data, find the first start sequence, and end.
use tesla_moonlight_ubuntu.Base.{
  ℕ, zero, suc, ◌+◌, ◌-◌, ◌≤◌, ◌<◌, ◌≡◌, refl, sym, ◌∙◌, ap, ◌⊎◌, inl, inr, true, false, none, some,
  List, arith, Bool-cases, Option-cases,
}
use mathlib.Core.Path.{subst}
use tesla_moonlight_ubuntu.Depacketizer.Nal.{
  BufferDesc, get_annex_b_start_sequence, at_start_sequence, find_start, skip_to_next_nal_or_end,
}

-- A start sequence has three or four bytes, and a byte of data behind it.
pub start_sequence_size :
    (b : BufferDesc) (n : ℕ) → get_annex_b_start_sequence b ≡ some n → (3 ≤ n) × (n < b.size)
unfolding get_annex_b_start_sequence
start_sequence_size b n h = ground arith

-- The cursor `r` has moved forward in the data of `b`, to the same end.
pub record IsWithin (b r : BufferDesc) : Type 0 where
  pub same_bytes : r.bytes ≡ b.bytes
  pub same_end : r.offset + r.size ≡ b.offset + b.size
  pub forward : b.offset ≤ r.offset

pub IsWithin-refl : (b : BufferDesc) → IsWithin b b
IsWithin-refl b = record { same_bytes = refl; same_end = refl; forward = omega arith }

pub IsWithin-trans : (a b r : BufferDesc) → IsWithin a b → IsWithin b r → IsWithin a r
IsWithin-trans a b r h k = record {
  same_bytes = k.same_bytes ∙ h.same_bytes;
  same_end = k.same_end ∙ h.same_end;
  forward = let p = h.forward in let q = k.forward in omega arith;
}

abbrev pub cursor : List ℕ → ℕ → ℕ → BufferDesc
cursor bytes off n = record { bytes = bytes; offset = off; size = n }

-- A cursor at a start sequence, or at the end of the data
abbrev pub IsStop : BufferDesc → Type 0
IsStop r = (r.size ≡ 0) ⊎ (at_start_sequence r ≡ true)

-- The two ways a round of the loop goes
find_start-stay :
    (n : ℕ) (bytes : List ℕ) (off : ℕ)
    → at_start_sequence (cursor bytes off (suc n)) ≡ true
    → find_start (suc n) bytes off ≡ cursor bytes off (suc n)
unfolding find_start
find_start-stay n bytes off e = rw (e, find_start) refl

find_start-move :
    (n : ℕ) (bytes : List ℕ) (off : ℕ)
    → at_start_sequence (cursor bytes off (suc n)) ≡ false
    → find_start (suc n) bytes off ≡ find_start n bytes (off + 1)
unfolding find_start
find_start-move n bytes off e = rw (e, find_start) refl

IsWithin-later :
    (bytes : List ℕ) (off n : ℕ) (r : BufferDesc)
    → IsWithin (cursor bytes (off + 1) n) r
    → IsWithin (cursor bytes off (suc n)) r
IsWithin-later bytes off n r h = record {
  same_bytes = h.same_bytes;
  same_end = omega (arith, h.same_end);
  forward = let p = h.forward in omega arith;
}

pub find_start-IsWithin :
    (n : ℕ) (bytes : List ℕ) (off : ℕ) → IsWithin (cursor bytes off n) (find_start n bytes off)
unfolding find_start
find_start-IsWithin zero bytes off = IsWithin-refl (cursor bytes off 0)
find_start-IsWithin (suc n) bytes off =
    elim (Bool-cases (at_start_sequence (cursor bytes off (suc n)))) [
      | inl e ↦
          subst (IsWithin (cursor bytes off (suc n))) (sym (find_start-stay n bytes off e))
            (IsWithin-refl (cursor bytes off (suc n)))
      | inr e ↦ subst (IsWithin (cursor bytes off (suc n))) (sym (find_start-move n bytes off e)) (
          IsWithin-later bytes off n (find_start n bytes (off + 1))
            (find_start-IsWithin n bytes (off + 1)))
    ]

pub find_start-IsStop : (n : ℕ) (bytes : List ℕ) (off : ℕ) → IsStop (find_start n bytes off)
unfolding find_start
find_start-IsStop zero bytes off = inl refl
find_start-IsStop (suc n) bytes off =
    elim (Bool-cases (at_start_sequence (cursor bytes off (suc n)))) [
      | inl e ↦ subst IsStop (sym (find_start-stay n bytes off e)) (inr e)
      | inr e ↦
          subst IsStop (sym (find_start-move n bytes off e)) (find_start-IsStop n bytes (off + 1))
    ]

-- No start sequence is passed over.
pub find_start-first :
    (n : ℕ) (bytes : List ℕ) (off k : ℕ)
    → off ≤ k
    → k < (find_start n bytes off).offset
    → at_start_sequence (cursor bytes k (off + n - k)) ≡ false
find_start-first zero bytes off k le h =
    let w = (find_start-IsWithin 0 bytes off).same_end in absurd (omega arith)
find_start-first (suc n) bytes off k le h =
    elim (Bool-cases (at_start_sequence (cursor bytes off (suc n)))) [
      | inl e ↦
          let stay : (find_start (suc n) bytes off).offset ≡ off =
            ap (λ r. BufferDesc.offset r) (find_start-stay n bytes off e) in
          absurd (omega arith)
      | inr e ↦ later e (λ p q. find_start-first n bytes (off + 1) k p q) (le_cases off k le)
    ]
  where
    le_cases : (a b : ℕ) → a ≤ b → (a ≡ b) ⊎ (a + 1 ≤ b)
    le_cases a b h = ground arith

    later :
        at_start_sequence (cursor bytes off (suc n)) ≡ false
        → (off + 1 ≤ k
            → k < (find_start n bytes (off + 1)).offset
            → at_start_sequence (cursor bytes k (off + 1 + n - k)) ≡ false)
        → (off ≡ k) ⊎ (off + 1 ≤ k)
        → at_start_sequence (cursor bytes k (off + suc n - k)) ≡ false
    later e ih (inl p) = let z : off + suc n - k ≡ suc n = omega arith in rw (z, ← p) e
    later e ih (inr p) =
        let move : (find_start (suc n) bytes off).offset ≡ (find_start n bytes (off + 1)).offset =
          ap (λ r. BufferDesc.offset r) (find_start-move n bytes off e) in
        let z : off + suc n - k ≡ off + 1 + n - k = omega arith in rw z (ih p (omega arith))

-- The number of bytes of the start sequence at a cursor, 0 where there is none
abbrev pub prefix_size : BufferDesc → ℕ
prefix_size b = elim (get_annex_b_start_sequence b) [ none ↦ 0 | some n ↦ n ]

pub skip-open :
    (b : BufferDesc)
    → skip_to_next_nal_or_end b
      ≡ find_start (b.size - prefix_size b) b.bytes (b.offset + prefix_size b)
unfolding skip_to_next_nal_or_end
skip-open b = elim (Option-cases (get_annex_b_start_sequence b)) [
  | inl e ↦
      let z : b.offset + 0 ≡ b.offset = omega arith in
      let y : b.size - 0 ≡ b.size = omega arith in
      rw (e, skip_to_next_nal_or_end, prefix_size, z, y) refl
  | inr (n, e) ↦ rw (e, skip_to_next_nal_or_end, prefix_size) refl
]

pub prefix_size-le : (b : BufferDesc) → prefix_size b ≤ b.size
prefix_size-le b = elim (Option-cases (get_annex_b_start_sequence b)) [
  | inl e ↦ rw (e, prefix_size) (omega arith)
  | inr (n, e) ↦ rw (e, prefix_size) (omega (arith, (start_sequence_size b n e).1))
]

pub skip-IsWithin : (b : BufferDesc) → IsWithin b (skip_to_next_nal_or_end b)
skip-IsWithin b =
    let le = prefix_size-le b in
    let w = find_start-IsWithin (b.size - prefix_size b) b.bytes (b.offset + prefix_size b) in
    let v : IsWithin b (find_start (b.size - prefix_size b) b.bytes (b.offset + prefix_size b)) =
      record {
        same_bytes = w.same_bytes;
        same_end = omega (arith, w.same_end);
        forward = let p = w.forward in omega arith;
      } in
    subst (IsWithin b) (sym (skip-open b)) v

find_start-progress :
    (n : ℕ) (bytes : List ℕ) (off : ℕ)
    → 0 < n
    → at_start_sequence (cursor bytes off n) ≡ false
    → (find_start n bytes off).size < n
find_start-progress zero bytes off h e = absurd (omega arith)
find_start-progress (suc n) bytes off h e =
    let w = find_start-IsWithin n bytes (off + 1) in
    let p = w.same_end in let q = w.forward in rw (find_start-move n bytes off e) (omega arith)

-- From data that is left, the cursor moves.
pub skip-progress : (b : BufferDesc) → 0 < b.size → (skip_to_next_nal_or_end b).size < b.size
unfolding at_start_sequence
skip-progress b h = elim (Option-cases (get_annex_b_start_sequence b)) [
  | inl e ↦
      let z : prefix_size b ≡ 0 = rw (e, prefix_size) refl in
      let y : b.size - 0 ≡ b.size = omega arith in
      let x : b.offset + 0 ≡ b.offset = omega arith in
      rw (skip-open b, z, y, x)
        (find_start-progress b.size b.bytes b.offset h (rw (e, at_start_sequence) refl))
  | inr (n, e) ↦
      let z : prefix_size b ≡ n = rw (e, prefix_size) refl in
      let g = start_sequence_size b n e in
      let w = find_start-IsWithin (b.size - n) b.bytes (b.offset + n) in
      let p = w.same_end in let q = w.forward in rw (skip-open b, z) (omega (arith, g.0, g.1))
]

-- `skip_to_next_nal_or_end` stops within the data, either where none is left or at a start
-- sequence, and passes over no start sequence but the one it stands on.
pub skip_to_next_nal_or_end_lem :
    (b : BufferDesc)
    → IsWithin b (skip_to_next_nal_or_end b)
      × IsStop (skip_to_next_nal_or_end b)
      × ((k : ℕ)
          → b.offset + prefix_size b ≤ k
          → k < (skip_to_next_nal_or_end b).offset
          → at_start_sequence (cursor b.bytes k (b.offset + b.size - k)) ≡ false)
skip_to_next_nal_or_end_lem b =
    let n = b.size - prefix_size b in
    let off = b.offset + prefix_size b in
    (
      skip-IsWithin b,
      subst IsStop (sym (skip-open b)) (find_start-IsStop n b.bytes off),
      λ k le lt.
          let z : b.offset + b.size - k ≡ off + n - k = omega (arith, prefix_size-le b) in
          rw z (
            find_start-first n b.bytes off k le
              (subst (λ r. k < BufferDesc.offset r) (skip-open b) lt)),
    )
