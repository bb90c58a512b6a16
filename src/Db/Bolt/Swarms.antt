-- ===== src/Db/Bolt/Swarms.antt =====
-- The swarm repository of pkg/db/bbolt.go: a set of topics.
use keet_agent.Prelude.{
  Bool, true, false, List, [], ◌∷◌, bytes_eq, contains, if◌then◌else◌, ◌≡◌, ap, subst₂, ◌∙◌, arith,
  Bool-cases, inl, inr,
}
use keet_agent.Prelude.Result.{Result, ok, ◌>>=◌, >>=-eq-ok}
use keet_agent.Bytes.{Bytes}
use keet_agent.Db.Repository.{DbError}
use keet_agent.Db.Bolt.{
  Bbolt, IsBbolt, swarms_bucket, or_failed-eq-ok, register_swarm, unregister_swarm,
  get_active_swarms,
}

-- The calls of a swarm repository.
pub data SwarmCall : Type 0 where
  register : Bytes → Bytes → SwarmCall
  unregister : Bytes → SwarmCall

-- Whether a swarm is registered by the calls, if it was or was not before.
unfoldable pub is_active : Bytes → Bool → List SwarmCall → Bool
is_active key before [] = before
is_active key before (register k name ∷ cs) =
    is_active key (if bytes_eq key k then true else before) cs
is_active key before (unregister k ∷ cs) =
    is_active key (if bytes_eq key k then false else before) cs

module _ {D : Type 0} (b : Bbolt D) where
  unfoldable pub run_calls : D → List SwarmCall → Result DbError D
  run_calls d [] = ok d
  run_calls d (register key name ∷ cs) = register_swarm b d key name >>= λ next. run_calls next cs
  run_calls d (unregister key ∷ cs) = unregister_swarm b d key >>= λ next. run_calls next cs

module _ {D : Type 0} (b : Bbolt D) (laws : IsBbolt b) where
  active : D → Bytes → Bool
  active d key = contains (b.keys d (swarms_bucket ∷ [])) key

  register_swarm-active :
      (d d' : D) (k name key : Bytes)
      → register_swarm b d k name ≡ ok d'
      → active d' key ≡ (if bytes_eq key k then true else active d key)
  unfolding register_swarm active
  register_swarm-active d d' k name key e =
      elim (Bool-cases (b.has_bucket d (swarms_bucket ∷ []))) [
        | inl there ↦
            laws.keys-put d d' (swarms_bucket ∷ []) k name key (or_failed-eq-ok _ (rw there at e))
        | inr missing ↦ absurd (ground arith)
      ]

  unregister_swarm-active :
      (d d' : D) (k key : Bytes)
      → unregister_swarm b d k ≡ ok d'
      → active d' key ≡ (if bytes_eq key k then false else active d key)
  unfolding unregister_swarm active
  unregister_swarm-active d d' k key e = elim (Bool-cases (b.has_bucket d (swarms_bucket ∷ []))) [
    | inl there ↦
        laws.keys-delete d d' (swarms_bucket ∷ []) k key (or_failed-eq-ok _ (rw there at e))
    | inr missing ↦ absurd (ground arith)
  ]

  run_calls-active :
      (d d' : D) (cs : List SwarmCall) (key : Bytes)
      → run_calls b d cs ≡ ok d'
      → active d' key ≡ is_active key (active d key) cs
  unfolding run_calls is_active
  run_calls-active d d' [] key e = cc
  run_calls-active d d' (register k name ∷ cs) key e =
      let (next, done, rest) = >>=-eq-ok (register_swarm b d k name) _ e in
      run_calls-active next d' cs key rest
      ∙ ap (λ (x : Bool). is_active key x cs) (register_swarm-active d next k name key done)
  run_calls-active d d' (unregister k ∷ cs) key e =
      let (next, done, rest) = >>=-eq-ok (unregister_swarm b d k) _ e in
      run_calls-active next d' cs key rest
      ∙ ap (λ (x : Bool). is_active key x cs) (unregister_swarm-active d next k key done)

  -- If bbolt does what it documents: after any calls of RegisterSwarm and UnregisterSwarm that all
  -- succeed, a list that GetActiveSwarms returns has a topic if and only if the last call for the topic
  -- registered it, or there was no call for it and it was there before.
  pub get_active_swarms-run_calls :
      (d d' : D) (cs : List SwarmCall) (before after : List Bytes) (key : Bytes)
      → run_calls b d cs ≡ ok d'
      → get_active_swarms b d ≡ ok before
      → get_active_swarms b d' ≡ ok after
      → contains after key ≡ is_active key (contains before key) cs
  unfolding get_active_swarms active
  get_active_swarms-run_calls d d' cs before after key e eb ea =
      let was : b.keys d (swarms_bucket ∷ []) ≡ before = ground arith in
      let is : b.keys d' (swarms_bucket ∷ []) ≡ after = ground arith in
      subst₂ (λ (x y : List Bytes). contains y key ≡ is_active key (contains x key) cs) was is
        (run_calls-active d d' cs key e)
