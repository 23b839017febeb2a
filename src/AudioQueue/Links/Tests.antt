-- ===== src/AudioQueue/Links/Tests.antt =====
-- Three blocks are linked in, at the tail, in front of the head and in between, and one is taken off.
use tesla_moonlight_ubuntu.Base.{ℕ, ◌≡◌, refl, true, false, [], ◌∷◌, arith}
use tesla_moonlight_ubuntu.AudioQueue.Links.{
  Memory, BlockList, no_blocks, search, insert_links, free_head_links, links_hold, validate_links,
}
use tesla_moonlight_ubuntu.AudioQueue.Links.Chain.{IsLinked}
use tesla_moonlight_ubuntu.AudioQueue.Links.Checks.{Made, none_yet, inserted, freed, link_checks}

abbrev unset : Memory
unset a = record { prev = 99; next = 99 }

abbrev put : ℕ → ℕ → BlockList → BlockList
put i x s = insert_links s (search s.memory i s.head) x

abbrev three : BlockList
three = put 1 300 (put 0 200 (put 0 100 (no_blocks unset)))

three-Made : Made three (200 ∷ 300 ∷ 100 ∷ [])
three-Made = inserted 1 300 (omega arith) refl (omega arith) (
    inserted 0 200 (omega arith) refl (omega arith)
      (inserted 0 100 (omega arith) refl (omega arith) (none_yet unset)))

abbrev two : BlockList
two = free_head_links true 400 three

link_checks_example : (validate_links 2 two ≡ true) × IsLinked two (300 ∷ 100 ∷ [])
link_checks_example = link_checks two (300 ∷ 100 ∷ []) (freed true 400 three-Made)

-- A list whose head points back to a block that was taken off fails.
stale_prev : validate_links 1 (record { memory = unset; head = 100; tail = 100 }) ≡ false
unfolding validate_links links_hold
stale_prev = refl
