-- ===== src/State/Waits.antt =====
-- How long IncrementPodCount sleeps (webhook/state_manager.go).
use kube_smart_scheduler.Prelude.{
  ℕ, zero, suc, ◌+◌, ◌*◌, ◌≤◌, ◌≡◌, refl, ap, ◌∙◌, Option, none, some, List, [], ◌∷◌, arith,
}
use kube_smart_scheduler.Prelude.Int.{ℤ}
use kube_smart_scheduler.Prelude.Result.{Result}
use kube_smart_scheduler.GoText.{Text, codes}
use kube_smart_scheduler.GoMap.{Order, get_or, ◌▹◌}
use kube_smart_scheduler.Strategy.Parse.{parse_placement_strategy}
use kube_smart_scheduler.Kube.{Pod, Deployment}
use kube_smart_scheduler.Client.{ApiError, Act, Client}
use kube_smart_scheduler.Client.Watched.{sleeps, watched, IsSilent, after_list}
use kube_smart_scheduler.State.{StateError, Codec, millisecond}
use kube_smart_scheduler.State.Increment.{
  Round, returns, retries, increment_round, next_round, increment_from, increment_pod_count,
}
use kube_smart_scheduler.State.Silent.{increment_round-Listens}

-- The sleeps of the rounds that are left, from the i-th on.
abbrev longest : ℕ → ℕ → ℕ
longest zero i = 0
longest (suc left) i = 100 * millisecond * (i + 1) + longest left (suc i)

-- The second action is the first one, with sleeps in it that add up to no more than the bound.
abbrev pub SleepsAtMost : {W A : Type 0} → ℕ → Act W A → Act (W × ℕ) A → Type 0
SleepsAtMost {W} bound m m' =
    (w : W) (slept : ℕ) → (d : ℕ) × (d ≤ bound) × (m' (w, slept) ≡ ((m w).0, ((m w).1, slept + d)))

module _ {W : Type 0} (client : Client W) (codec : Codec) (deployment : Deployment)
    (rule_key : Text) where
  -- The i-th round, which reads the strategy of the deployment at hand.
  abbrev round : Order Text → Order ℤ → ℕ → Act W Round
  round o oc i =
      increment_round client codec (o ▹ i) (λ path. oc (i ∷ path)) deployment rule_key
        (parse_placement_strategy
          (get_or (codes "smart-scheduler.io/schedule-strategy") deployment.annotations []))

  next_round-SleepsAtMost :
      (again : Act W (Result StateError (Unit {0})))
      (again' : Act (W × ℕ) (Result StateError (Unit {0}))) (bound i : ℕ)
      → SleepsAtMost bound again again'
      → (step : Round)
      → SleepsAtMost
          (100 * millisecond * (i + 1) + bound)
          (next_round client codec again i step)
          (next_round (watched sleeps client) codec again' i step)
  unfolding next_round
  next_round-SleepsAtMost again again' bound i h (returns result) w slept =
      (0, omega arith, let same : slept + 0 ≡ slept = omega arith in rw same refl)
  next_round-SleepsAtMost again again' bound i h (retries e) w slept =
      let pause = 100 * millisecond * (i + 1) in
      let (d, within, same) = h (client.sleep pause w).1 (slept + pause) in
      let sum : (slept + pause) + d ≡ slept + (pause + d) = omega arith in
      (
        pause + d,
        omega arith,
        same
            ∙ ap
                (λ t. ((again (client.sleep pause w).1).0, ((again (client.sleep pause w).1).1, t)))
                sum,
      )

  round-IsSilent :
      (o : Order Text) (oc : Order ℤ) (i : ℕ)
      → IsSilent (round o oc i) (
          increment_round
            (watched sleeps client)
            codec
            (o ▹ i)
            (λ path. oc (i ∷ path))
            deployment
            rule_key
            (parse_placement_strategy
              (get_or (codes "smart-scheduler.io/schedule-strategy") deployment.annotations [])))
  round-IsSilent o oc i w slept = listened (
      increment_round-Listens sleeps client codec (o ▹ i) (λ path. oc (i ∷ path)) deployment
        rule_key _ w slept)
    where
      listened :
          {A : Type 0} {a : A} {u : W} {s : ℕ} {end : A × (W × ℕ)}
          → (heard : Option (Result ApiError (List Pod))) × (end
              ≡ (a, (u, after_list sleeps heard s)))
          → end ≡ (a, (u, s))
      listened (none, same) = same
      listened (some answer, same) = same

  increment_from-SleepsAtMost :
      (o : Order Text) (oc : Order ℤ) (left i : ℕ)
      → SleepsAtMost
          (longest left i)
          (increment_from client codec o oc deployment rule_key left i)
          (increment_from (watched sleeps client) codec o oc deployment rule_key left i)
  unfolding increment_from
  increment_from-SleepsAtMost o oc zero i w slept =
      (0, omega arith, let same : slept + 0 ≡ slept = omega arith in rw same refl)
  increment_from-SleepsAtMost o oc (suc left) i w slept =
      let step = round o oc i w in
      let (d, within, same) =
        next_round-SleepsAtMost (increment_from client codec o oc deployment rule_key left (suc i))
          (increment_from (watched sleeps client) codec o oc deployment rule_key left (suc i))
          (longest left (suc i)) i (increment_from-SleepsAtMost o oc left (suc i)) step.0 step.1
          slept in
      (
        d,
        within,
        ap
              (λ done.
                next_round (watched sleeps client) codec
                  (increment_from (watched sleeps client) codec o oc deployment rule_key left
                    (suc i))
                  i done.0 done.1)
              (round-IsSilent o oc i w slept)
            ∙ same,
      )

  -- IncrementPodCount ends, whatever conflicts there are, and has then slept for at most 600 ms: under
  -- a client that adds up the sleeps it answers and changes the world as it does without.
  pub increment_pod_count-SleepsAtMost :
      (o : Order Text) (oc : Order ℤ)
      → SleepsAtMost
          (600 * millisecond)
          (increment_pod_count client codec o oc deployment rule_key)
          (increment_pod_count (watched sleeps client) codec o oc deployment rule_key)
  unfolding increment_pod_count
  increment_pod_count-SleepsAtMost o oc w slept =
      let (d, within, same) = increment_from-SleepsAtMost o oc 3 0 w slept in (d, omega arith, same)
