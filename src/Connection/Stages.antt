-- ===== src/Connection/Stages.antt =====
-- The stages of `LiStartConnection`, up to the first that fails.
use tesla_moonlight_ubuntu.Base.{
  ℕ, zero, suc, ◌+◌, ◌<◌, ◌≡◌, refl, sym, ◌∙◌, ap, ◌⊎◌, inl, inr, true, false, List, [], ◌∷◌, ◌++◌,
  append_assoc, append-nil, arith, ◌==◌, Bool-cases, if_true, if_false, elim_false,
}
use tesla_moonlight_ubuntu.Connection.{
  Stage, Action, stage_starting, stage_complete, stage_failed, Connection, act, start_stage,
  result_of, start_stages,
}

-- The calls of `n` stages from `k` on that succeed
abbrev pub passed : (n k : ℕ) → List Action
passed zero k = []
passed (suc n) k = stage_starting k ∷ stage_complete k ∷ passed n (suc k)

-- All `n` stages have succeeded.
pub record HasPassed (n k : ℕ) (s : Connection) (r : ℕ × Connection) : Type 0 where
  pub error : r.0 ≡ 0
  pub reached : r.1.stage ≡ n + s.stage
  pub calls : r.1.actions ≡ s.actions ++ passed n k

-- The stage `k + j` has failed.
pub record HasFailed (results : ℕ → ℕ) (j k : ℕ) (s : Connection) (r : ℕ × Connection)
    : Type 0 where
  pub error : r.0 ≡ result_of results (k + j)
  pub some_error : (r.0 == 0) ≡ false
  pub reached : r.1.stage ≡ s.stage + j
  pub calls :
      r.1.actions
      ≡ s.actions ++ (passed j k ++ (stage_starting (k + j) ∷ stage_failed (k + j) r.0 ∷ []))

-- A stage that has succeeded, and one that has failed
abbrev begun : Stage → Connection → Connection
begun k s = act (record (act s (stage_starting k)) { stage = s.stage + 1 }) (stage_complete k)

abbrev broken : Stage → ℕ → Connection → Connection
broken k err s = act (act s (stage_starting k)) (stage_failed k err)

-- What becomes of the rest, after a stage with this result
abbrev go_from : (ℕ → ℕ) → (n k : ℕ) → ℕ × Connection → ℕ × Connection
go_from results n k r = elim (r.0 == 0) [ true ↦ start_stages results n (suc k) r.1 | false ↦ r ]

start_stages-move :
    (results : ℕ → ℕ) (n k : ℕ) (s : Connection)
    → (result_of results k == 0) ≡ true
    → start_stages results (suc n) k s ≡ start_stages results n (suc k) (begun k s)
unfolding start_stages start_stage
start_stages-move results n k s e =
    let r : start_stage k (result_of results k) s ≡ (0, begun k s) = if_true _ _ e in
    ap (go_from results n k) r

start_stages-stay :
    (results : ℕ → ℕ) (n k : ℕ) (s : Connection)
    → (result_of results k == 0) ≡ false
    → start_stages results (suc n) k s ≡ (result_of results k, broken k (result_of results k) s)
unfolding start_stages start_stage
start_stages-stay results n k s e =
    let r : start_stage k (result_of results k) s
        ≡ (result_of results k, broken k (result_of results k) s) =
      if_false _ _ e in
    ap (go_from results n k) r ∙ elim_false _ _ e

HasPassed-next :
    (n k : ℕ) (s : Connection) (r : ℕ × Connection)
    → HasPassed n (suc k) (begun k s) r
    → HasPassed (suc n) k s r
HasPassed-next n k s r h = record {
  error = h.error;
  reached = let z = h.reached in omega arith;
  calls =
      h.calls
      ∙ append_assoc (s.actions ++ (stage_starting k ∷ [])) (stage_complete k ∷ [])
          (passed n (suc k))
      ∙ append_assoc s.actions (stage_starting k ∷ []) (stage_complete k ∷ passed n (suc k));
}

HasFailed-next :
    (results : ℕ → ℕ) (j k : ℕ) (s : Connection) (r : ℕ × Connection)
    → HasFailed results j (suc k) (begun k s) r
    → HasFailed results (suc j) k s r
HasFailed-next results j k s r h =
    let e : suc k + j ≡ k + suc j = omega arith in
    let tail_of : ℕ → List Action =
      λ x. passed j (suc k) ++ (stage_starting x ∷ stage_failed x r.0 ∷ []) in
    record {
      error = h.error ∙ ap (result_of results) e;
      some_error = h.some_error;
      reached = let z = h.reached in omega arith;
      calls =
          h.calls
          ∙ append_assoc (s.actions ++ (stage_starting k ∷ [])) (stage_complete k ∷ [])
              (tail_of (suc k + j))
          ∙ append_assoc s.actions (stage_starting k ∷ []) (stage_complete k ∷ tail_of (suc k + j))
          ∙ ap (λ x. s.actions ++ (stage_starting k ∷ stage_complete k ∷ tail_of x)) e;
    }

pub start_stages-cases :
    (results : ℕ → ℕ) (n k : ℕ) (s : Connection)
    → HasPassed n k s (start_stages results n k s)
      ⊎ ((j : ℕ) × (j < n) × HasFailed results j k s (start_stages results n k s))
unfolding start_stages
start_stages-cases results zero k s =
    inl (record { error = refl; reached = omega arith; calls = sym (append-nil s.actions) })
start_stages-cases results (suc n) k s = elim (Bool-cases (result_of results k == 0)) [
  | inl e ↦
      rw (start_stages-move results n k s e)
        (next (start_stages-cases results n (suc k) (begun k s)))
  | inr e ↦ rw (start_stages-stay results n k s e) (
      inr (
        0,
        omega arith,
        record {
          error = ap (result_of results) (plus_zero k);
          some_error = e;
          reached = omega arith;
          calls =
              append_assoc s.actions (stage_starting k ∷ [])
                (stage_failed k (result_of results k) ∷ [])
              ∙ ap
                  (λ x. s.actions ++ (stage_starting x ∷ stage_failed x (result_of results k) ∷ []))
                  (plus_zero k);
        },
      ))
]
  where
    plus_zero : (x : ℕ) → x ≡ x + 0
    plus_zero x = omega arith

    next :
        {r : ℕ × Connection}
        → HasPassed n (suc k) (begun k s) r
          ⊎ ((j : ℕ) × (j < n) × HasFailed results j (suc k) (begun k s) r)
        → HasPassed (suc n) k s r ⊎ ((j : ℕ) × (j < suc n) × HasFailed results j k s r)
    next {r = r} (inl h) = inl (HasPassed-next n k s r h)
    next {r = r} (inr (j, l, h)) = inr (suc j, omega arith, HasFailed-next results j k s r h)
