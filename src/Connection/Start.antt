-- ===== src/Connection/Start.antt =====
-- `LiStartConnection` starts every stage or leaves none.
use tesla_moonlight_ubuntu.Base.{
  ℕ, ◌+◌, ◌<◌, ◌≡◌, refl, ◌∙◌, ap, ◌⊎◌, inl, inr, true, false, [], ◌∷◌, ◌++◌, arith, ◌==◌,
  elim_true, elim_false,
}
use tesla_moonlight_ubuntu.Connection.{
  stage_starting, stage_failed, mouse_move, connection_started, Connection, act, stop_connection,
  result_of, start_stages, start_connection,
}
use tesla_moonlight_ubuntu.Connection.Stop.{undone_from, stop_connection_undoes}
use tesla_moonlight_ubuntu.Connection.Stages.{passed, HasPassed, HasFailed, start_stages-cases}

-- A connection has started: every stage in its order, then the mouse events and the callback.
pub record HasStarted (s : Connection) (r : ℕ × Connection) : Type 0 where
  pub error : r.0 ≡ 0
  pub reached : r.1.stage ≡ 11
  pub calls : r.1.actions ≡ (
      (((s.actions ++ passed 11 1) ++ (mouse_move ∷ [])) ++ (mouse_move ∷ []))
      ++ (connection_started ∷ []))

-- A connection has failed at the stage `1 + j`: the stages before it, its failure, and then the
-- stages before it undone.
pub record HasGivenUp (results : ℕ → ℕ) (j : ℕ) (s : Connection) (r : ℕ × Connection) : Type 0 where
  pub error : r.0 ≡ result_of results (1 + j)
  pub some_error : (r.0 == 0) ≡ false
  pub none_left : r.1.stage ≡ 0
  pub calls :
      r.1.actions
      ≡ (s.actions ++ (passed j 1 ++ (stage_starting (1 + j) ∷ stage_failed (1 + j) r.0 ∷ [])))
        ++ undone_from j

-- From no stage and with valid arguments, a connection either starts, with all its stages in
-- order, or fails with the error of its first stage that fails, and then every stage before it is
-- undone, the last first.
pub start_connection-cases :
    (results : ℕ → ℕ) (s : Connection)
    → s.stage ≡ 0
    → HasStarted s (start_connection results 0 s)
      ⊎ ((j : ℕ) × (j < 11) × HasGivenUp results j s (start_connection results 0 s))
unfolding start_connection
start_connection-cases results s z =
    settle (start_stages results 11 1 s0) (start_stages-cases results 11 1 s0)
  where
    s0 : Connection
    s0 = record s { already_terminated = false; connection_interrupted = false }

    greeted : Connection → Connection
    greeted x = act (act (act x mouse_move) mouse_move) connection_started

    ended : ℕ × Connection → ℕ × Connection
    ended r = elim (r.0 == 0) [ true ↦ (0, greeted r.1) | false ↦ (r.0, stop_connection r.1) ]

    settle :
        (r : ℕ × Connection)
        → HasPassed 11 1 s0 r ⊎ ((j : ℕ) × (j < 11) × HasFailed results j 1 s0 r)
        → HasStarted s (ended r) ⊎ ((j : ℕ) × (j < 11) × HasGivenUp results j s (ended r))
    settle r (inl h) =
        let e : (r.0 == 0) ≡ true = ground (arith, h.error) in
        let k : ended r ≡ (0, greeted r.1) = elim_true _ _ e in
        inl (
          rw k (record {
            error = refl;
            reached = let x = h.reached in omega arith;
            calls =
                ap
                  (λ x.
                    ((x ++ (mouse_move ∷ [])) ++ (mouse_move ∷ [])) ++ (connection_started ∷ []))
                  h.calls;
          }))
    settle r (inr (j, l, h)) =
        let k : ended r ≡ (r.0, stop_connection r.1) = elim_false _ _ h.some_error in
        let at : (r.1).stage ≡ j = let x = h.reached in omega arith in
        let u = stop_connection_undoes r.1 (omega arith) in
        inr (
          j,
          l,
          rw k (record {
            error = h.error;
            some_error = h.some_error;
            none_left = u.0;
            calls =
                u.1
                ∙ ap (λ x. (r.1).actions ++ undone_from x) at
                ∙ ap (λ x. x ++ undone_from j) h.calls;
          }),
        )
