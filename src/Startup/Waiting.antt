-- ===== src/Startup/Waiting.antt =====
-- How the waits for PostgreSQL and for Redis end.
use ilove_convertion.Base.{
  ℕ, zero, suc, ◌+◌, ◌≤◌, ◌<◌, ◌≡◌, ◌≢◌, refl, ◌⊎◌, inl, inr, Bool, true, false, ◌==◌,
  if◌then◌else◌, Bool-cases, arith,
}
use ilove_convertion.Startup.{
  Attempt, open_failed, ping_failed, connected, Pools, no_pools, after_attempt, is_connected,
  connect_from, new_database, ping_from, new_queue,
}

module _ (replies : ℕ → Attempt) where
  -- From an attempt on, the first of `left` ones that connects is `n`, and the loop ends there.
  pub record Connects (left attempt : ℕ) (s s' : Pools) : Type 0 where
    pub n : ℕ
    pub after : attempt ≤ n
    pub before : n < attempt + left
    pub connects : replies n ≡ connected
    pub first : (m : ℕ) → attempt ≤ m → m < n → replies m ≢ connected
    pub one_open : s'.opened ≡ s'.closed + 1
    pub seconds : s'.slept + attempt ≡ s.slept + n

  pub record GivesUp (left attempt : ℕ) (s s' : Pools) : Type 0 where
    pub none_connects : (m : ℕ) → attempt ≤ m → m < attempt + left → replies m ≢ connected
    pub none_open : s'.opened ≡ s'.closed
    pub seconds : s'.slept ≡ s.slept + left

  abbrev pub Ends : ℕ → ℕ → Pools → Pools × Bool → Type 0
  Ends left attempt s (s', ok) =
      ((ok ≡ true) × Connects left attempt s s') ⊎ ((ok ≡ false) × GivesUp left attempt s s')

  this_or_later : (m attempt : ℕ) → attempt ≤ m → (m ≡ attempt) ⊎ (attempt + 1 ≤ m)
  this_or_later m attempt le = elim (Bool-cases (m == attempt)) [
    | inl t ↦ inl (ground arith)
    | inr f ↦ inr (ground arith)
  ]

  -- An attempt that fails leaves the rest of the loop to the others.
  failed_first :
      (left attempt : ℕ) (s t : Pools) (r : Pools × Bool)
      → replies attempt ≢ connected
      → t.slept ≡ s.slept + 1
      → Ends left (attempt + 1) t r
      → Ends (suc left) attempt s r
  failed_first left attempt s t (s', ok) fails tick = by
    where
      earlier :
          (m : ℕ)
          → (m ≡ attempt) ⊎ (attempt + 1 ≤ m)
          → (attempt + 1 ≤ m → replies m ≢ connected)
          → replies m ≢ connected
      earlier m (inl e) h = rw e fails
      earlier m (inr l) h = h l

      by : Ends left (attempt + 1) t (s', ok) → Ends (suc left) attempt s (s', ok)
      by (inl (e, h)) = inl (
        e,
        record {
          n = h.n;
          after = omega (arith, h.after);
          before = omega (arith, h.before);
          connects = h.connects;
          first = λ m a b. earlier m (this_or_later m attempt a) (λ l. h.first m l b);
          one_open = h.one_open;
          seconds = omega (arith, h.seconds, tick);
        },
      )
      by (inr (e, h)) = inr (
        e,
        record {
          none_connects = λ m a b.
              earlier m (this_or_later m attempt a) (λ l. h.none_connects m l (omega arith));
          none_open = h.none_open;
          seconds = omega (arith, h.seconds, tick);
        },
      )

  connect_from-Ends :
      (left attempt : ℕ) (s : Pools)
      → s.opened ≡ s.closed
      → Ends left attempt s (connect_from replies left attempt s)
  unfolding connect_from
  connect_from-Ends zero attempt s even = inr (
    refl,
    record { none_connects = λ m a b e. omega arith; none_open = even; seconds = omega arith },
  )
  connect_from-Ends (suc left) attempt s even =
      by (replies attempt) refl (connect_from-Ends left (attempt + 1))
    where
      by :
          (a : Attempt)
          → replies attempt ≡ a
          → ((t : Pools)
              → t.opened ≡ t.closed
              → Ends left (attempt + 1) t (connect_from replies left (attempt + 1) t))
          → Ends (suc left) attempt s (
              if is_connected a
              then (after_attempt a s, true)
              else connect_from replies left (attempt + 1) (after_attempt a s))
      by open_failed e rest =
          unfold after_attempt is_connected in
          failed_first left attempt s (after_attempt open_failed s) _ (λ c. (cc)) refl
            (rest (after_attempt open_failed s) even)
      by ping_failed e rest =
          unfold after_attempt is_connected in
          failed_first left attempt s (after_attempt ping_failed s) _ (λ c. (cc)) refl
            (rest (after_attempt ping_failed s) (omega (arith, even)))
      by connected e rest =
          unfold after_attempt is_connected in
          inl (
            refl,
            record {
              n = attempt;
              after = omega arith;
              before = omega arith;
              connects = e;
              first = λ m a b c. omega arith;
              one_open = omega (arith, even);
              seconds = omega arith;
            },
          )

  -- Waiting for PostgreSQL ends in one of two ways. Either one of the attempts 1 to 30 connects:
  -- then the first that does gives the connection, the program has slept a second for each attempt
  -- before it, and has closed every pool it opened but that one. Or none of them connects: then
  -- New fails, after 30 seconds of sleep, with every pool closed.
  pub new_database-Ends : Ends 30 1 no_pools (new_database replies)
  unfolding new_database
  new_database-Ends = connect_from-Ends 30 1 no_pools refl

-- The answers of Redis as those of a service that opens and may not answer.
abbrev pub as_attempt : Bool → Attempt
as_attempt true = connected
as_attempt false = ping_failed

ping_from-connect_from :
    (replies : ℕ → Bool) (left attempt : ℕ) (s t : Pools)
    → s.slept ≡ t.slept
    → s.opened ≡ s.closed + 1
    → let (s', ok) = ping_from replies left attempt s in
      let (t', ok') = connect_from (λ n. as_attempt (replies n)) left attempt t in
      (ok ≡ ok') × (s'.slept ≡ t'.slept) × (s'.opened ≡ s'.closed + (if ok then 1 else 0))
unfolding ping_from connect_from after_attempt is_connected
ping_from-connect_from replies zero attempt s t e o = (refl, e, omega (arith, o))
ping_from-connect_from replies (suc left) attempt s t e o = elim (Bool-cases (replies attempt)) [
  | inl b ↦ rw b (refl, e, omega (arith, o))
  | inr b ↦ rw b (
      ping_from-connect_from replies left (attempt + 1) (record s { slept = s.slept + 1 })
        (after_attempt ping_failed t) (omega (arith, e)) o)
]

-- Waiting for Redis ends as waiting for PostgreSQL with the same answers does, after as long, and
-- the client stays open exactly if one of the answers came.
pub new_queue_as_database :
    (replies : ℕ → Bool)
    → let (s, ok) = new_queue replies in
      let (t, ok') = new_database (λ n. as_attempt (replies n)) in
      (ok ≡ ok') × (s.slept ≡ t.slept) × (s.opened ≡ s.closed + (if ok then 1 else 0))
unfolding new_queue new_database
new_queue_as_database replies =
    ping_from-connect_from replies 30 1 (record no_pools { opened = 1 }) no_pools refl refl
