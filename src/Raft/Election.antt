-- ===== src/Raft/Election.antt =====
-- How startElection (Raft/raft.go) counts the votes: it begins with one, and its own vote stands at the
-- head of the channel as well.
use ban_db.Prelude.{
  ℕ, zero, suc, ◌+◌, ◌-◌, ◌/◌, ◌≤◌, ◌<◌, ◌==◌, ltb, List, [], ◌∷◌, take, Bool, true, false, ◌&&◌,
  if◌then◌else◌, ◌≡◌, ap, ◌∙◌, arith, Bool-cases, inl, inr,
}
use ban_db.Prelude.Int.{negsuc}
use ban_db.Raft.{Role, Raft, is_candidate, votes_won, election_timeout, become_leader}

-- The loop, `rounds` messages at most; a channel that runs dry is the timeout. `half` is
-- len(r.peers)/2.
count_loop : ℕ → ℕ → ℕ → List Bool → Bool
count_loop half zero votes ch = false
count_loop half (suc rounds) votes [] = false
count_loop half (suc rounds) votes (granted ∷ ch) =
    let votes' = if granted then suc votes else votes in
    let rest = count_loop half rounds votes' ch in if granted && ltb half votes' then true else rest

-- Whether the node takes the leadership, with the other nodes' replies in the order of their arrival.
unfoldable pub wins_election : ℕ → List Bool → Bool
unfolding count_loop
wins_election peers replies =
    if peers - 1 == 0 then true else count_loop (peers / 2) (peers - 1) 1 (true ∷ replies)

-- startElection after the requests are out: `r` is the node when the last of the votes it needs has come
-- in, or else when the time is over or the loop ends. `in_time` is false where the timer ended the
-- wait for the replies that are still missing.
unfoldable pub finish_election : Bool → List Bool → Raft → Raft
unfolding wins_election votes_won election_timeout
finish_election in_time replies r =
    if wins_election r.peers replies then votes_won r else if in_time then r else election_timeout r

abbrev pub count_granted : List Bool → ℕ
count_granted [] = 0
count_granted (true ∷ bs) = suc (count_granted bs)
count_granted (false ∷ bs) = count_granted bs

count_loop_lem :
    (half rounds votes : ℕ) (ch : List Bool)
    → votes ≤ half
    → count_loop half rounds votes ch ≡ ltb half (votes + count_granted (take rounds ch))
unfolding count_loop
count_loop_lem half zero votes ch h = ground arith
count_loop_lem half (suc rounds) votes [] h = ground arith
count_loop_lem half (suc rounds) votes (false ∷ ch) h = count_loop_lem half rounds votes ch h
count_loop_lem half (suc rounds) votes (true ∷ ch) h = elim (Bool-cases (ltb half (suc votes))) [
  | inl e ↦ rw e (ground arith)
  | inr e ↦ rw e (ground (arith, count_loop_lem half rounds (suc votes) ch))
]

wins_election-granted :
    (peers : ℕ) (replies : List Bool)
    → 1 < peers
    → wins_election peers replies ≡ ltb (peers / 2) (2 + count_granted (take (peers - 2) replies))
unfolding wins_election
wins_election-granted peers replies h =
    let several : (peers - 1 == 0) ≡ false = ground arith in
    let more : peers - 1 ≡ suc (peers - 2) = omega arith in
    let counted = count_granted (take (peers - 2) replies) in
    rw several (
      count_loop_lem (peers / 2) (peers - 1) 1 (true ∷ replies) (omega arith)
      ∙ ap (λ n. ltb (peers / 2) (1 + count_granted (take n (true ∷ replies)))) more
      ∙ ap (λ n. ltb (peers / 2) n) (two counted))
  where
    two : (n : ℕ) → 1 + suc n ≡ 2 + n
    two n = omega arith

-- In a cluster of two nodes or more a node becomes the leader exactly if it is still a candidate when it
-- has counted the votes, and the replies that it waits for, all but one of the other nodes', give it a
-- majority together with two votes of its own: its vote counts twice. A candidate without that many
-- becomes a follower if the time is over, and stays a candidate otherwise; any other node stays as it
-- is.
pub finish_election-doubled :
    (in_time : Bool) (replies : List Bool) (r : Raft)
    → 1 < r.peers
    → finish_election in_time replies r ≡ (
        if is_candidate r.state
        then if ltb (r.peers / 2) (2 + count_granted (take (r.peers - 2) replies))
          then become_leader r
          else if in_time
          then r
          else record r { state = Role.follower; voted_for = negsuc 0 }
        else r)
unfolding finish_election votes_won election_timeout
finish_election-doubled in_time replies r h =
    let won = wins_election-granted r.peers replies h in rw (finish_election, won) (ground arith)
