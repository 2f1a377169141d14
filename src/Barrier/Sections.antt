-- ===== src/Barrier/Sections.antt =====
-- HW4/src/assigner/barrier.py: what `run_rounds` does while it holds its lock, in a handler thread
-- (`enter`, `arrive`, `wake`) and in the main loop (`advance`). A handler is at one place of its loop.
use data_communication.Prelude.{
  ℕ, zero, suc, ◌+◌, Bool, true, false, ◌||◌, not, Option, none, some, is_some, is_num, get_or, ltb,
  ◌==◌, if◌then◌else◌, update,
}
use data_communication.Evolution.Distributed.{above_of, below_of}
use data_communication.Evolution.Rules.{Row, space}

-- The first and the last row of a band, or the rows above and below it.
abbrev pub Edges : Type 0
Edges = Row × Row

-- At the top of the loop in a round; between the two sections, with the halos that were read; in
-- `go_cv.wait`; after the loop; returned because of an error.
pub data Place : Type 0 where
  starting : ℕ → Place
  exchanging : ℕ → Edges → Place
  waiting : ℕ → Place
  leaving returned : Place

pub record Barrier : Type 0 where
  pub round : ℕ
  pub arrived : ℕ
  pub failed : Bool
  pub seen : ℕ → Option ℕ
  pub edges : ℕ → Option Edges
  pub halos : ℕ → Edges
  pub place : ℕ → Place

abbrev pub initial : ℕ → (ℕ → Edges) → Barrier
initial rounds first = record {
  round = 0;
  arrived = 0;
  failed = false;
  seen = λ k. none;
  edges = λ k. none;
  halos = first;
  place = λ k. if ltb 0 rounds then starting 0 else leaving;
}

-- A handler that leaves because of the error that is there, or raises one and fails.
abbrev pub give_up : ℕ → Barrier → Barrier
give_up k s = record s { place = update s.place k returned }

abbrev pub raise : ℕ → Barrier → Barrier
raise k s = record s { failed = true; place = update s.place k returned }

-- The first section of a round. In the results of the sections `true` is a ProtocolError.
unfoldable pub enter_from : Place → ℕ → Barrier → Barrier × Bool
enter_from (starting r) k s =
    if s.failed
    then (give_up k s, false)
    else if not (s.round == r)
    then (raise k s, true)
    else (record s { place = update s.place k (exchanging r (s.halos k)) }, false)
enter_from _ k s = (s, false)

unfoldable pub enter : ℕ → Barrier → Barrier × Bool
unfolding enter_from
enter k s = enter_from (s.place k) k s

-- The second section, with the edges that the worker sent in the round.
unfoldable pub arrive_from : Place → (ℕ → Edges) → ℕ → Barrier → Barrier × Bool
arrive_from (exchanging r h) answer k s =
    if s.failed
    then (give_up k s, false)
    else if not (s.round == r) || is_num (s.seen k) r
    then (raise k s, true)
    else (
      record s {
        edges = update s.edges k (some (answer r));
        seen = update s.seen k (some r);
        arrived = s.arrived + 1;
        place = update s.place k (waiting r);
      },
      false,
    )
arrive_from _ answer k s = (s, false)

unfoldable pub arrive : (ℕ → Edges) → ℕ → Barrier → Barrier × Bool
unfolding arrive_from
arrive answer k s = arrive_from (s.place k) answer k s

-- One test of the loop around `go_cv.wait`, and the way to the next round.
unfoldable pub wake_from : Place → ℕ → ℕ → Barrier → Barrier
wake_from (waiting r) rounds k s =
    if s.failed then give_up k s else if s.round == r then s else record s {
      place = update s.place k (if ltb (suc r) rounds then starting (suc r) else leaving);
    }
wake_from _ rounds k s = s

unfoldable pub wake : ℕ → ℕ → Barrier → Barrier
unfolding wake_from
wake rounds k s = wake_from (s.place k) rounds k s

unfoldable pub all_edges : ℕ → (ℕ → Option Edges) → Bool
all_edges zero edges = true
all_edges (suc n) edges = let rest = all_edges n edges in if is_some (edges n) then rest else false

abbrev pub edges_of : (ℕ → Option Edges) → ℕ → Edges
edges_of edges k = get_or (edges k) ((λ x. space), (λ x. space))

-- The main loop: it waits, ends, fails on an edge that is missing, or opens the next round.
unfoldable pub advance : ℕ → ℕ → Barrier → Barrier
unfolding all_edges
advance n rounds s =
    if not (ltb s.round rounds) || s.failed || ltb s.arrived n
    then s
    else if not (all_edges n s.edges)
    then record s { failed = true }
    else record s {
      halos = λ k. ((edges_of s.edges (above_of n k)).1, (edges_of s.edges (below_of n k)).0);
      arrived = 0;
      round = suc s.round;
    }

-- An error of a connection, or the time limit.
abbrev pub fail : Barrier → Barrier
fail s = record s { failed = true }
