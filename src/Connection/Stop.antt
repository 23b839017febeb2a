-- ===== src/Connection/Stop.antt =====
-- What `LiStopConnection` undoes.
use tesla_moonlight_ubuntu.Base.{
  ℕ, zero, suc, ◌-◌, ◌≤◌, ◌≡◌, refl, sym, ◌∙◌, ap, inl, inr, Bool, true, false, ◌||◌, List, [], ◌∷◌,
  ◌++◌, append_assoc, append-nil, arith, ◌==◌, if◌then◌else◌, Bool-cases, if_true, if_false,
}
use mathlib.Core.Path.{subst}
use tesla_moonlight_ubuntu.Connection.{
  Action, undone, Connection, act, interrupt_connection, has_cleanup, undo_stage, undo_down,
  stop_connection, connection_terminated,
}

-- The calls that undo the stages from `k` down
abbrev pub undone_from : ℕ → List Action
undone_from zero = []
undone_from (suc k) = if has_cleanup (suc k) then undone (suc k) ∷ undone_from k else undone_from k

-- What undoing from a stage gives
pub record IsUndone (acts : List Action) (s s' : Connection) : Type 0 where
  pub none_left : s'.stage ≡ 0
  pub calls : s'.actions ≡ s.actions ++ acts
  pub terminated : s'.already_terminated ≡ s.already_terminated
  pub interrupted : s'.connection_interrupted ≡ s.connection_interrupted

-- The stage that a stop finds is undone, any other left alone.
undo_stage-here :
    (k : ℕ) (s : Connection)
    → s.stage ≡ suc k
    → ((undo_stage (suc k) s).stage ≡ k)
      × ((undo_stage (suc k) s).actions ++ undone_from k ≡ s.actions ++ undone_from (suc k))
      × ((undo_stage (suc k) s).already_terminated ≡ s.already_terminated)
      × ((undo_stage (suc k) s).connection_interrupted ≡ s.connection_interrupted)
unfolding undo_stage
undo_stage-here k s e =
    let here : (s.stage == suc k) ≡ true = ground (arith, e) in
    let step : undo_stage (suc k) s ≡ undo (has_cleanup (suc k)) = if_true _ _ here in
    rw step (by (has_cleanup (suc k)))
  where
    undo : Bool → Connection
    undo b =
        if b
        then record (act s (undone (suc k))) { stage = s.stage - 1 }
        else record s { stage = s.stage - 1 }

    by :
        (b : Bool)
        → ((undo b).stage ≡ k)
          × ((undo b).actions ++ undone_from k
              ≡ s.actions ++ (if b then undone (suc k) ∷ undone_from k else undone_from k))
          × ((undo b).already_terminated ≡ s.already_terminated)
          × ((undo b).connection_interrupted ≡ s.connection_interrupted)
    by true =
        (omega (arith, e), append_assoc s.actions (undone (suc k) ∷ []) (undone_from k), refl, refl)
    by false = (omega (arith, e), refl, refl, refl)

undo_down-IsUndone :
    (n : ℕ) (s : Connection) → s.stage ≤ n → IsUndone (undone_from s.stage) s (undo_down n s)
unfolding undo_down undo_stage
undo_down-IsUndone zero s h =
    let z : s.stage ≡ 0 = omega arith in
    record {
      none_left = z;
      calls = rw z (sym (append-nil s.actions));
      terminated = refl;
      interrupted = refl;
    }
undo_down-IsUndone (suc n) s h = elim (Bool-cases (s.stage == suc n)) [
  | inl e ↦
      let here : s.stage ≡ suc n = ground (arith, e) in
      let t = undo_stage-here n s here in
      let ih = undo_down-IsUndone n (undo_stage (suc n) s) (omega (arith, t.0)) in
      record {
        none_left = ih.none_left;
        calls =
            ih.calls
            ∙ ap (λ x. (undo_stage (suc n) s).actions ++ undone_from x) t.0
            ∙ t.1
            ∙ ap (λ x. s.actions ++ undone_from x) (sym here);
        terminated = ih.terminated ∙ t.2;
        interrupted = ih.interrupted ∙ t.3;
      }
  | inr e ↦
      let other : undo_stage (suc n) s ≡ s = if_false _ _ e in
      subst (λ x. IsUndone (undone_from s.stage) s (undo_down n x)) (sym other)
        (undo_down-IsUndone n s (ground (arith, e)))
]

-- A stop leaves no stage, whichever it finds: it undoes that one and all before it, the last
-- first, with one call each but for those that need none, and no termination callback follows.
pub stop_connection_undoes :
    (s : Connection)
    → s.stage ≤ 11
    → ((stop_connection s).stage ≡ 0)
      × ((stop_connection s).actions ≡ s.actions ++ undone_from s.stage)
      × ((err : ℕ) → connection_terminated err (stop_connection s) ≡ stop_connection s)
unfolding stop_connection interrupt_connection connection_terminated
stop_connection_undoes s h =
    let s1 = interrupt_connection (record s { already_terminated = true }) in
    let u = undo_down-IsUndone 11 s1 h in
    (
      u.none_left,
      u.calls,
      λ err.
          let t : ((undo_down 11 s1).already_terminated || (undo_down 11 s1).connection_interrupted)
              ≡ true =
            ground (arith, u.terminated) in
          if_true _ _ t,
    )
