-- ===== src/Producer/BoxesDrain.antt =====
-- Every box of a producer can be given back, whatever has happened before.
use rust_rdkafka.Prelude.{
  none, ℕ, suc, ◌≡◌, refl, sym, ap, ◌∙◌, Bool, some, List, [], ◌∷◌, ◌++◌, length, length-append,
  arith,
}
use mathlib.Core.Path.{subst}
use rust_rdkafka.Message.Headers.{NativeHeaders, Bytes}
use rust_rdkafka.Message.Defs.{NativeMessage}
use rust_rdkafka.Producer.Boxes.{
  count_if, Allocator, take_at, State, new, poll_reports, report, Step, reports, polls, step, run,
}
use rust_rdkafka.Producer.BoxesLaws.{
  Owns, Owned, deliver-Owns, report-Owned, run-new-Owned, given_back,
}

module _ {native : NativeHeaders} {D : Type 0} where
  poll_all :
      (ms : List (NativeMessage native × ℕ)) (s : State native D)
      → Owns ms s
      → (s' : State native D) × (poll_reports (length ms) ms s ≡ some s')
        × Owned s'
        × (s'.queued ≡ s.queued)
        × (s'.accepted ≡ s.accepted)
        × (s'.reported ≡ [])
  unfolding poll_reports
  poll_all [] s inv = (
    record s { reported = [] },
    refl,
    record { held = inv.held; once = inv.once; kept = inv.kept },
    refl,
    refl,
    refl,
  )
  poll_all (m ∷ ms) s inv =
      let (s1, eq, inv1, queue, given) = deliver-Owns m ms s inv in
      let (s2, eq2, inv2, queue2, given2, done) = poll_all ms s1 inv1 in
      (s2, ground (arith, eq, eq2), inv2, queue2 ∙ queue, given2 ∙ given, done)

  report_first :
      (m : NativeMessage native) (s : State native D) (q : ℕ) (qs : List ℕ)
      → s.queued ≡ q ∷ qs
      → report 0 m s ≡ record s { queued = qs; reported = s.reported ++ (m, q) ∷ [] }
  unfolding report take_at
  report_first m s q qs eq = ground (arith, eq)

module _ (native : NativeHeaders) {K P D : Type 0} (key_bytes : K → Bytes)
    (payload_bytes : P → Bytes) (allocator : Allocator D) where
  -- librdkafka reports on the messages of its queue in turn, and then one poll takes these reports and
  -- the `k` from before.
  abbrev pub drain :
      NativeMessage native → ℕ → List ℕ → List (Step native key_bytes payload_bytes allocator)
  drain m k [] = polls k ∷ []
  drain m k (q ∷ qs) = reports 0 m ∷ drain m (suc k) qs

  run-drain :
      (m : NativeMessage native) (k : ℕ) (qs : List ℕ) (s : State native D)
      → Owned s
      → s.queued ≡ qs
      → length s.reported ≡ k
      → (s' : State native D) × (run native key_bytes payload_bytes allocator (drain m k qs) s
          ≡ some s')
        × Owned s'
        × (s'.accepted ≡ s.accepted)
        × (s'.queued ≡ [])
        × (s'.reported ≡ [])
  unfolding run step
  run-drain m k [] s inv queue count =
      let (s', eq, inv', same, given, done) = poll_all s.reported s inv in
      (
        s',
        subst (λ n. elim (poll_reports n s.reported s) [ none ↦ none | some t ↦ some t ] ≡ some s')
            count (ground (arith, eq)),
        inv',
        given,
        same ∙ queue,
        done,
      )
  run-drain m k (q ∷ qs) s inv queue count =
      let first = report_first m s q qs queue in
      let next : State native D = record s { queued = qs; reported = s.reported ++ (m, q) ∷ [] } in
      let (s', eq, inv', given, queue', done) =
        run-drain m (suc k) qs next (subst Owned first (report-Owned 0 m s inv)) refl
          (omega (arith, count, length-append s.reported ((m, q) ∷ []))) in
      (
        s',
        ap (run native key_bytes payload_bytes allocator (drain m (suc k) qs)) first ∙ eq,
        inv',
        given,
        queue',
        done,
      )

  -- In every state that sends, reports and polls lead to, reports on the messages that are still queued and
  -- one poll lead to a state with no box, in which the context was given the opaques of all sends that
  -- librdkafka accepted, each as often as it was sent.
  pub run-drain-given_back :
      (actions : List (Step native key_bytes payload_bytes allocator)) (s : State native D)
      (m : NativeMessage native)
      → run native key_bytes payload_bytes allocator actions new ≡ some s
      → (s' : State native D) × (run native key_bytes payload_bytes allocator
            (drain m (length s.reported) s.queued)
            s
          ≡ some s')
        × (s'.heap ≡ [])
        × ((f : D → Bool) → count_if f s.accepted ≡ count_if (λ x. f x.1) s'.delivered)
  run-drain-given_back actions s m eq =
      let (t, eq', inv) = run-new-Owned native key_bytes payload_bytes allocator actions in
      let same : t ≡ s = ground (arith, eq, eq') in
      let (s', drained, own, given, no_queue, no_reports) =
        run-drain m (length s.reported) s.queued s (subst Owned same inv) refl refl in
      let (empty, all) =
        given_back native key_bytes payload_bytes allocator s' own no_queue no_reports in
      (s', drained, empty, λ f. ap (count_if f) (sym given) ∙ all f)
