-- ===== src/Cluster/Voting.antt =====
-- What one node of a cluster keeps about votes, whatever it does.
use raft_vibe.Prelude.{
  ℕ, ◌+◌, ◌<◌, ◌≡◌, ◌≢◌, ◌⊎◌, refl, sym, ap, ◌∙◌, inl, inr, true, Option, none, some, List, [], ◌∷◌,
  All, length, arith, dec_lt, Has, All-Has, Has-All, All-snoc,
}
use raft_vibe.Types.{candidate, RequestVoteResult}
use raft_vibe.Storage.{Storage}
use raft_vibe.Core.State.{RaftCore}
use raft_vibe.Core.Election.{contains}
use raft_vibe.Core.Leading.{Distinct, Distinct-append}
use raft_vibe.Core.VoteSafety.{IsDurable, VoteStep}
use raft_vibe.Core.Calm.{Calm}
use raft_vibe.Core.Candidacy.{Starts, Counts}
use raft_vibe.Cluster.World.{Vote}

abbrev pub vote : ℕ → ℕ → ℕ → Vote
vote voter term candidate_id = record { voter = voter; term = term; candidate_id = candidate_id }

-- The votes of a candidate are votes that distinct members have given to it in its term.
pub record Candidacy {S M : Type 0} (members : List ℕ) (given : List Vote) (asked : Option ℕ)
    (i : ℕ) (c : RaftCore S M) : Type 0 where
  pub votes : All (λ v. Has (vote v c.current_term i) given) c.votes_received
  pub among : All (λ v. Has v members) c.votes_received
  pub distinct : Distinct c.votes_received
  pub current : (term : ℕ) → asked ≡ some term → term ≡ c.current_term

-- The node `i` of the cluster: its term is no lower than those in which it has voted, and its vote in
-- its term is the one it has given.
pub record Sound {S M : Type 0} ⦃st : Storage S⦄ (members : List ℕ) (given : List Vote)
    (asked : Option ℕ) (i : ℕ) (c : RaftCore S M) : Type 0 where
  pub durable : IsDurable c
  pub id : c.id ≡ i
  pub size : length c.peers + 1 ≡ length members
  pub kept :
      (term x : ℕ)
      → Has (vote i term x) given
      → (term < c.current_term) ⊎ ((term ≡ c.current_term) × (c.voted_for ≡ some x))
  pub running : c.state ≡ candidate → Candidacy members given asked i c

module _ {S M : Type 0} ⦃st : Storage S⦄ where
  -- What was given stays given.
  Candidacy-grows :
      (members : List ℕ) (given : List Vote) (new_vote : Vote) (asked : Option ℕ) (i : ℕ)
      (c : RaftCore S M)
      → Candidacy members given asked i c
      → Candidacy members (new_vote ∷ given) asked i c
  Candidacy-grows members given new_vote asked i c k = record {
    votes = Has-All _ c.votes_received (λ v h.
        inr (All-Has (λ v. Has (vote v c.current_term i) given) c.votes_received v k.votes h));
    among = k.among;
    distinct = k.distinct;
    current = k.current;
  }

  -- A vote of another node does not concern the node.
  pub Sound-grows :
      (members : List ℕ) (given : List Vote) (new_vote : Vote) (asked : Option ℕ) (i : ℕ)
      (c : RaftCore S M)
      → new_vote.voter ≢ i
      → Sound members given asked i c
      → Sound members (new_vote ∷ given) asked i c
  Sound-grows members given new_vote asked i c differs k = record {
    durable = k.durable;
    id = k.id;
    size = k.size;
    kept = λ term x h. elim h [
      | inl e ↦ absurd (differs (ap (λ v. v.voter) (sym e)))
      | inr l ↦ k.kept term x l
    ];
    running = λ s. Candidacy-grows members given new_vote asked i c (k.running s);
  }

  -- A vote that was given is kept by a step that keeps the vote of a term.
  still_kept :
      (c c' : RaftCore S M) (term x : ℕ)
      → VoteStep c c'
      → (term < c.current_term) ⊎ ((term ≡ c.current_term) × (c.voted_for ≡ some x))
      → (term < c'.current_term) ⊎ ((term ≡ c'.current_term) × (c'.voted_for ≡ some x))
  still_kept c c' term x v (inl lower) = inl (omega (arith, lower, v.term_grows))
  still_kept c c' term x v (inr (same, voted)) = elim (dec_lt c.current_term c'.current_term) [
    | yes rises ↦ inl (omega (arith, rises, same))
    | no stays ↦
        let e : c'.current_term ≡ c.current_term = omega (arith, stays, v.term_grows) in
        inr (same ∙ sym e, v.vote_kept x e voted)
  ]

  pub Sound-Calm :
      (members : List ℕ) (given : List Vote) (asked : Option ℕ) (i : ℕ) (c c' : RaftCore S M)
      → VoteStep c c'
      → Calm c c'
      → Sound members given asked i c
      → Sound members given asked i c'
  Sound-Calm members given asked i c c' v calm k = record {
    durable = v.durable k.durable;
    id = calm.id ∙ k.id;
    size = rw calm.peers k.size;
    kept = λ term x h. still_kept c c' term x v (k.kept term x h);
    running = λ s.
        let (was, votes, term) = calm.candidacy s in
        let r = k.running was in
        record {
          votes = rw (votes, term) r.votes;
          among = rw votes r.among;
          distinct = rw votes r.distinct;
          current = λ t e. r.current t e ∙ sym term;
        };
  }

  -- A vote of the node itself, of its term.
  pub Sound-votes :
      (members : List ℕ) (given : List Vote) (asked : Option ℕ) (i t x : ℕ) (c : RaftCore S M)
      → c.current_term ≡ t
      → c.voted_for ≡ some x
      → Sound members given asked i c
      → Sound members (vote i t x ∷ given) asked i c
  Sound-votes members given asked i t x c same voted k = record {
    durable = k.durable;
    id = k.id;
    size = k.size;
    kept = λ term y h. elim h [
      | inl e ↦ inr (ap (λ v. v.term) e ∙ sym same, voted ∙ ap (λ v. some v.candidate_id) (sym e))
      | inr l ↦ k.kept term y l
    ];
    running = λ s. Candidacy-grows members given (vote i t x) asked i c (k.running s);
  }

  -- A call of `request_votes`, and its end.
  with_asked :
      (members : List ℕ) (given : List Vote) (asked asked' : Option ℕ) (i : ℕ) (c : RaftCore S M)
      → ((term : ℕ) → asked' ≡ some term → term ≡ c.current_term)
      → Sound members given asked i c
      → Sound members given asked' i c
  with_asked members given asked asked' i c current k = record {
    durable = k.durable;
    id = k.id;
    size = k.size;
    kept = k.kept;
    running = λ s.
        let r = k.running s in
        record { votes = r.votes; among = r.among; distinct = r.distinct; current = current };
  }

  pub Sound-asks :
      (members : List ℕ) (given : List Vote) (asked : Option ℕ) (i : ℕ) (c : RaftCore S M)
      → Sound members given asked i c
      → Sound members given (some c.current_term) i c
  Sound-asks members given asked i c =
      with_asked members given asked (some c.current_term) i c (λ t e. ground (arith, e))

  pub Sound-ends :
      (members : List ℕ) (given : List Vote) (asked : Option ℕ) (i : ℕ) (c : RaftCore S M)
      → Sound members given asked i c
      → Sound members given none i c
  Sound-ends members given asked i c =
      with_asked members given asked none i c (λ t e. absurd (ground (arith, e)))

  pub Sound-election :
      (members : List ℕ) (given : List Vote) (asked : Option ℕ) (i : ℕ) (c c' : RaftCore S M)
      → Has i members
      → VoteStep c c'
      → Starts c c'
      → Sound members given asked i c
      → Sound members (vote i c'.current_term i ∷ given) none i c'
  unfolding contains
  Sound-election members given asked i c c' member v starts k =
      let itself : c'.votes_received ≡ i ∷ [] = starts.votes ∙ ap (λ x. x ∷ []) k.id in
      record {
        durable = v.durable k.durable;
        id = starts.id ∙ k.id;
        size = rw starts.peers k.size;
        kept = λ term x h. elim h [
          | inl e ↦
              inr (
                ap (λ v. v.term) e,
                starts.voted ∙ ap some (k.id ∙ ap (λ v. v.candidate_id) (sym e)),
              )
          | inr l ↦ inl (elim (k.kept term x l) [
            | inl lower ↦ omega (arith, lower, starts.term)
            | inr (same, _) ↦ omega (arith, same, starts.term)
          ])
        ];
        running = λ s. record {
          votes = rw itself (inl refl, tt);
          among = rw itself (member, tt);
          distinct = rw itself (refl, tt);
          current = λ t e. absurd (ground (arith, e));
        };
      }

  pub Sound-reply :
      (members : List ℕ) (given : List Vote) (asked : Option ℕ) (i p term : ℕ)
      (r : RequestVoteResult) (c c' : RaftCore S M)
      → Has p members
      → asked ≡ some term
      → (r.vote_granted ≡ true → Has (vote p term i) given)
      → VoteStep c c'
      → Counts p r c c'
      → Sound members given asked i c
      → Sound members given asked i c'
  Sound-reply members given asked i p term r c c' member asks gave v counts k = record {
    durable = v.durable k.durable;
    id = counts.id ∙ k.id;
    size = rw counts.peers k.size;
    kept = λ t x h. still_kept c c' t x v (k.kept t x h);
    running = λ s.
        let (was, same, either) = counts.candidacy s in
        let q = k.running was in
        elim either [
          | inl votes ↦ record {
            votes = rw (votes, same) q.votes;
            among = rw votes q.among;
            distinct = rw votes q.distinct;
            current = λ t e. q.current t e ∙ sym same;
          }
          | inr (granted, fresh, votes) ↦ record {
            votes =
                rw (votes, same)
                  (All-snoc _ c.votes_received p q.votes
                    (rw (← q.current term asks) (gave granted)));
            among = rw votes (All-snoc _ c.votes_received p q.among member);
            distinct = rw votes (Distinct-append c.votes_received p q.distinct fresh);
            current = λ t e. q.current t e ∙ sym same;
          }
        ];
  }
