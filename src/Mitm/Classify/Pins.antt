-- ===== src/Mitm/Classify/Pins.antt =====
-- How long a pair of a client and a host stays pinned.
use ctxward.Prelude.{
  ℕ, ◌+◌, ◌≤◌, ◌≡◌, refl, ◌∙◌, Bool, true, false, inl, inr, Option, Option-cases, none, some, List,
  [], ◌∷◌, Text, All, ltb, ◌==◌, eq_text_pair, arith, if◌then◌else◌,
}
use ctxward.Prelude.Ascii.{to_lowercase}
use ctxward.Prelude.Table
use ctxward.Prelude.Table.{get-remove, get-insert}
use ctxward.Mitm.Classify.{PinCache, mark, is_pinned}

-- A query: the instant, the client's address and the name of the host.
abbrev pub Query : Type 0
Query = ℕ × Text × Text

-- The cache that the queries leave, which evict what has expired.
pub queried : List Query → PinCache → PinCache
queried [] c = c
queried ((now, peer, sni) ∷ more) c = queried more (is_pinned now peer sni c).0

abbrev answer : ℕ → Option ℕ → Bool
answer now none = false
answer now (some deadline) = ltb now deadline

is_pinned-answer :
    (now : ℕ) (peer sni : Text) (c : PinCache)
    → (is_pinned now peer sni c).1 ≡ answer now (Table.get (peer, to_lowercase sni) c.pinned)
unfolding is_pinned
is_pinned-answer now peer sni c =
    elim (Option-cases (Table.get (peer, to_lowercase sni) c.pinned)) [
      | inl e ↦ rw (is_pinned, e) refl
      | inr (d, e) ↦ rw (is_pinned, e) (ground arith)
    ]

answer_if :
    (now : ℕ) (b : Bool) (d : ℕ) (o : Option ℕ)
    → answer now (if b then some d else o) ≡ (if b then ltb now d else answer now o)
answer_if now true d o = refl
answer_if now false d o = refl

-- What a query leaves under a key gives the same answer from then on.
is_pinned-get :
    (t now : ℕ) (peer sni : Text) (k : Text × Text) (c : PinCache)
    → t ≤ now
    → answer now (Table.get k (is_pinned t peer sni c).0.pinned) ≡ answer now (Table.get k c.pinned)
unfolding is_pinned
is_pinned-get t now peer sni k c h =
    elim (Option-cases (Table.get (peer, to_lowercase sni) c.pinned)) [
      | inl e ↦ rw (is_pinned, e) refl
      | inr (d, e) ↦
          rw (is_pinned, e)
            (ground (
              arith,
              get-remove (peer, to_lowercase sni) k c.pinned,
              eq_text_pair.same_iff (peer, to_lowercase sni) k,
            ))
    ]

queried-get :
    (now : ℕ) (k : Text × Text) (queries : List Query) (c : PinCache)
    → All (λ (q : Query). q.0 ≤ now) queries
    → answer now (Table.get k (queried queries c).pinned) ≡ answer now (Table.get k c.pinned)
unfolding queried
queried-get now k [] c h = refl
queried-get now k ((t, peer, sni) ∷ more) c h =
    queried-get now k more (is_pinned t peer sni c).0 h.1 ∙ is_pinned-get t now peer sni k c h.0

-- After a mark, and after any queries up to an instant, the marked pair is pinned at this instant
-- just when the time to live since the mark has not passed; every other pair is pinned just when it
-- was before the mark. The name's case makes no difference.
pub is_pinned-queried :
    (marked now : ℕ) (peer sni other_peer other_sni : Text) (queries : List Query) (c : PinCache)
    → All (λ (q : Query). q.0 ≤ now) queries
    → (is_pinned now other_peer other_sni (queried queries (mark marked peer sni c))).1 ≡ (
        if ◌==◌ {K = Text × Text} (peer, to_lowercase sni) (other_peer, to_lowercase other_sni)
        then ltb now (marked + c.ttl)
        else (is_pinned now other_peer other_sni c).1)
unfolding mark
is_pinned-queried marked now peer sni other_peer other_sni queries c h =
    is_pinned-answer now other_peer other_sni (queried queries (mark marked peer sni c))
    ∙ queried-get now (other_peer, to_lowercase other_sni) queries (mark marked peer sni c) h
    ∙ rw
        (
          mark,
          get-insert (peer, to_lowercase sni) (other_peer, to_lowercase other_sni) (marked + c.ttl)
              c.pinned,
          is_pinned-answer now other_peer other_sni c,
        )
        (answer_if now
          (◌==◌ {K = Text × Text} (peer, to_lowercase sni) (other_peer, to_lowercase other_sni))
          (marked + c.ttl) (Table.get (other_peer, to_lowercase other_sni) c.pinned))
