-- ===== src/Producer/BoxesLaws.antt =====
-- The boxed opaques of a producer are given back once each, and none is lost.
use mathlib.Core.Path.{subst}
use rust_rdkafka.Prelude.{
  ℕ, zero, suc, ◌+◌, ◌≤◌, ◌≡◌, refl, sym, Bool, some, List, [], ◌∷◌, ◌++◌, ◌==◌, inl, inr, arith,
  ==_iff, codes_contain, Bool-cases, Option-cases,
}
use rust_rdkafka.Codes.RespErr.{RespErr}
use rust_rdkafka.Codes.Convert.{to_error_code}
use rust_rdkafka.Error.Defs.{
  KafkaError, Result, ok, err, is_error, cstring_new, nul, message_production,
}
use rust_rdkafka.Message.Headers.{NativeHeaders, Bytes}
use rust_rdkafka.Message.Defs.{NativeMessage, from_dr_event}
use rust_rdkafka.Producer.Record.{BaseRecord}
use rust_rdkafka.Producer.Send.{Call, call_of}
use rust_rdkafka.Producer.Boxes.{
  Heap, has_address, count_if, Allocator, into_ptr, from_ptr, take_at, State, new, deliver,
  poll_reports, report, send, Step, sends, reports, polls, step, run,
}

abbrev is_pointer : ℕ → ℕ → Bool
is_pointer p q = q == p

abbrev is_reported : {A : Type 0} → ℕ → A × ℕ → Bool
is_reported p m = m.1 == p

-- One box by its count.
count_if-append :
    {A : Type 0} (f : A → Bool) (xs : List A) (y : A)
    → count_if f (xs ++ y ∷ []) ≡ count_if f (y ∷ []) + count_if f xs
count_if-append f [] y = ground arith
count_if-append f (x ∷ xs) y = ground (arith, count_if-append f xs y)

module _ {D : Type 0} where
  from_ptr-found :
      (h : Heap D) (p : ℕ)
      → 1 ≤ count_if (has_address p) h
      → (d : D) × (h' : Heap D) × (from_ptr h p ≡ some (d, h'))
  unfolding from_ptr
  from_ptr-found [] p le = absurd (omega (arith, le))
  from_ptr-found (b ∷ h) p le = elim (Bool-cases (has_address p b)) [
    | inl is ↦ (b.1, h, ground arith)
    | inr is ↦
        let (d, h', eq) = from_ptr-found h p (ground arith) in (d, b ∷ h', ground (arith, eq))
  ]

  from_ptr-count_if :
      (f : ℕ × D → Bool) (h : Heap D) (p : ℕ) (d : D) (h' : Heap D)
      → from_ptr h p ≡ some (d, h')
      → count_if f h ≡ count_if f ((p, d) ∷ h')
  unfolding from_ptr
  from_ptr-count_if f [] p d h' eq = ground arith
  from_ptr-count_if f ((q, e) ∷ h) p d h' eq = elim (Bool-cases (q == p)) [
    | inl is ↦ ground (arith, (==_iff q p).0 is)
    | inr is ↦ elim (Option-cases (from_ptr h p)) [
      | inl missing ↦ ground arith
      | inr ((d', h''), found) ↦ ground (arith, from_ptr-count_if f h p d' h'' found)
    ]
  ]

take_at-count_if :
    (p i q : ℕ) (ps qs : List ℕ)
    → take_at i ps ≡ some (q, qs)
    → count_if (is_pointer p) ps ≡ count_if (is_pointer p) (q ∷ qs)
unfolding take_at
take_at-count_if p i q [] qs eq = ground arith
take_at-count_if p zero q (r ∷ ps) qs eq = ground arith
take_at-count_if p (suc i) q (r ∷ ps) qs eq = elim (Option-cases (take_at i ps)) [
  | inl missing ↦ ground arith
  | inr ((q', qs'), found) ↦ ground (arith, take_at-count_if p i q' ps qs' found)
]

module _ {native : NativeHeaders} {D : Type 0} where
  -- The messages `ms` are those that are reported and not yet delivered. Each box is the pointer of one
  -- message in the queue or in a report, no box is there twice, and each opaque that was accepted is in a
  -- box or was delivered, which no test on opaques tells apart.
  pub record Owns (ms : List (NativeMessage native × ℕ)) (s : State native D) : Type 0 where
    pub held :
        (p : ℕ)
        → count_if (has_address p) s.heap
          ≡ count_if (is_pointer p) s.queued + count_if (is_reported p) ms
    pub once : (p : ℕ) → count_if (has_address p) s.heap ≤ 1
    pub kept :
        (f : D → Bool)
        → count_if f s.accepted ≡ count_if (λ x. f x.1) s.delivered + count_if (λ b. f b.1) s.heap

  -- The same of a state's own reports.
  abbrev pub Owned : State native D → Type 0
  Owned s = Owns s.reported s

  pub deliver-Owns :
      (m : NativeMessage native × ℕ) (ms : List (NativeMessage native × ℕ)) (s : State native D)
      → Owns (m ∷ ms) s
      → (s' : State native D) × (deliver m s ≡ some s')
        × Owns ms s'
        × (s'.queued ≡ s.queued)
        × (s'.accepted ≡ s.accepted)
  unfolding deliver
  deliver-Owns m ms s inv =
      let (d, h, eq) = from_ptr-found s.heap m.1 (ground (arith, inv.held m.1)) in
      (
        record s { heap = h; delivered = (from_dr_event m.0, d) ∷ s.delivered },
        ground (arith, eq),
        record {
          held =
              λ p. ground (arith, inv.held p, from_ptr-count_if (has_address p) s.heap m.1 d h eq);
          once =
              λ p. ground (arith, inv.once p, from_ptr-count_if (has_address p) s.heap m.1 d h eq);
          kept = λ f. ground (arith, inv.kept f, from_ptr-count_if (λ b. f b.1) s.heap m.1 d h eq);
        },
        refl,
        refl,
      )

  poll_reports-Owned :
      (k : ℕ) (ms : List (NativeMessage native × ℕ)) (s : State native D)
      → Owns ms s
      → (s' : State native D) × (poll_reports k ms s ≡ some s') × Owned s'
  unfolding poll_reports
  poll_reports-Owned zero ms s inv = (
    record s { reported = ms },
    refl,
    record { held = inv.held; once = inv.once; kept = inv.kept },
  )
  poll_reports-Owned (suc k) [] s inv = (
    record s { reported = [] },
    refl,
    record { held = inv.held; once = inv.once; kept = inv.kept },
  )
  poll_reports-Owned (suc k) (m ∷ ms) s inv =
      let (s1, eq, inv1, queue, given) = deliver-Owns m ms s inv in
      let (s2, eq2, inv2) = poll_reports-Owned k ms s1 inv1 in (s2, ground (arith, eq, eq2), inv2)

  pub report-Owned :
      (i : ℕ) (m : NativeMessage native) (s : State native D) → Owned s → Owned (report i m s)
  unfolding report
  report-Owned i m s inv = elim (Option-cases (take_at i s.queued)) [
    | inl missing ↦ let unmoved : report i m s ≡ s = ground arith in subst Owned (sym unmoved) inv
    | inr ((p, ps), found) ↦
        let moved : report i m s ≡ record s { queued = ps; reported = s.reported ++ (m, p) ∷ [] } =
          ground arith in
        subst Owned (sym moved) (record {
          held = λ q. ground (
            arith,
            inv.held q,
            take_at-count_if q i p s.queued ps found,
            count_if-append (is_reported q) s.reported (m, p),
          );
          once = inv.once;
          kept = inv.kept;
        })
  ]

module _ (native : NativeHeaders) {K P D : Type 0} (key_bytes : K → Bytes)
    (payload_bytes : P → Bytes) (allocator : Allocator D) where
  abbrev Sent : Type 0
  Sent = Result (KafkaError × BaseRecord K P native.Hdrs D) (Unit {0})

  -- What a send does to the state.
  abbrev pub IsSent : BaseRecord K P native.Hdrs D → State native D → State native D × Sent → Type 0
  IsSent r s (s', err (e, r')) = (r' ≡ r) × (s' ≡ s)
  IsSent r s (s', ok u) =
      (p : ℕ) × (from_ptr s'.heap p ≡ some (r.delivery_opaque, s.heap))
      × (s'.queued ≡ p ∷ s.queued)
      × (s'.accepted ≡ r.delivery_opaque ∷ s.accepted)

  -- A send that fails gives the record back with its opaque and leaves the boxes, the queue and the
  -- accounts as they were; one that succeeds leaves one more message in the queue, whose pointer is the box
  -- of the opaque. All pointers stay with their boxes.
  pub send-Owned :
      (producev : Call native.Hdrs → RespErr) (r : BaseRecord K P native.Hdrs D)
      (s : State native D)
      → Owned s
      → (x : State native D × Sent) × (send native key_bytes payload_bytes allocator producev r s
          ≡ some x)
        × IsSent r s x
        × Owned x.0
  unfolding send cstring_new into_ptr from_ptr
  send-Owned producev r s inv = elim (Bool-cases (codes_contain 0 r.topic)) [
    | inl has ↦ ((s, err (nul (record { bytes = r.topic }), r)), ground arith, (refl, refl), inv)
    | inr clean ↦
        let p = allocator.address s.heap in
        let answer = producev (call_of native key_bytes payload_bytes r.topic p r) in
        elim (Bool-cases (is_error answer)) [
          | inl refused ↦ (
            (s, err (message_production (to_error_code answer), r)),
            ground arith,
            (refl, refl),
            inv,
          )
          | inr accepted ↦ (
            (
              record s {
                heap = (p, r.delivery_opaque) ∷ s.heap;
                queued = p ∷ s.queued;
                accepted = r.delivery_opaque ∷ s.accepted;
              },
              ok tt,
            ),
            ground arith,
            (p, ground arith, refl, refl),
            record {
              held = λ q. ground (arith, inv.held q);
              once = λ q. ground (arith, inv.once q, ==_iff p q, allocator.address_free s.heap);
              kept = λ f. ground (arith, inv.kept f);
            },
          )
        ]
  ]

  step-Owned :
      (a : Step native key_bytes payload_bytes allocator) (s : State native D)
      → Owned s
      → (s' : State native D) × (step native key_bytes payload_bytes allocator a s ≡ some s')
        × Owned s'
  unfolding step
  step-Owned (sends producev r) s inv =
      let (x, eq, sent, inv') = send-Owned producev r s inv in (x.0, ground (arith, eq), inv')
  step-Owned (reports i m) s inv = (report i m s, refl, report-Owned i m s inv)
  step-Owned (polls k) s inv = poll_reports-Owned k s.reported s inv

  run-Owned :
      (actions : List (Step native key_bytes payload_bytes allocator)) (s : State native D)
      → Owned s
      → (s' : State native D) × (run native key_bytes payload_bytes allocator actions s ≡ some s')
        × Owned s'
  unfolding run
  run-Owned [] s inv = (s, refl, inv)
  run-Owned (a ∷ actions) s inv =
      let (s1, eq, inv1) = step-Owned a s inv in
      let (s2, eq2, inv2) = run-Owned actions s1 inv1 in (s2, ground (arith, eq, eq2), inv2)

  new-Owned : Owned (new {native = native} {D = D})
  unfolding new
  new-Owned = record { held = λ p. refl; once = λ p. omega arith; kept = λ f. refl }

  -- In every order of sends, of reports on queued messages and of polls, whatever librdkafka answers, no
  -- pointer is taken back that is not a box, and each box is the pointer of one message in librdkafka's
  -- queue or in a report that is not polled, so that no box is taken back twice and none is lost.
  pub run-new-Owned :
      (actions : List (Step native key_bytes payload_bytes allocator))
      → (s : State native D) × (run native key_bytes payload_bytes allocator actions new ≡ some s)
        × Owned s
  run-new-Owned actions = run-Owned actions new new-Owned

  heap_empty : (h : Heap D) → ((p : ℕ) → count_if (has_address p) h ≡ 0) → h ≡ []
  heap_empty [] none_at = refl
  heap_empty (b ∷ h) none_at = absurd (ground (arith, none_at b.0))

  pub given_back :
      (s : State native D)
      → Owned s
      → s.queued ≡ []
      → s.reported ≡ []
      → (s.heap ≡ []) × ((f : D → Bool) → count_if f s.accepted ≡ count_if (λ x. f x.1) s.delivered)
  given_back s own no_queue no_reports =
      let empty = heap_empty s.heap (λ p. ground (arith, own.held p)) in
      (empty, λ f. ground (arith, own.kept f))

  -- Once librdkafka has reported on all messages in its queue and all reports are polled, no box is left,
  -- and what the context was given are the opaques of the sends that librdkafka accepted, each as often as
  -- it was sent: no test on opaques counts them differently.
  pub all_given_back :
      (actions : List (Step native key_bytes payload_bytes allocator)) (s : State native D)
      → run native key_bytes payload_bytes allocator actions new ≡ some s
      → s.queued ≡ []
      → s.reported ≡ []
      → (s.heap ≡ []) × ((f : D → Bool) → count_if f s.accepted ≡ count_if (λ x. f x.1) s.delivered)
  all_given_back actions s eq no_queue no_reports =
      let (s', eq', inv) = run-new-Owned actions in
      let same : s' ≡ s = ground (arith, eq, eq') in
      given_back s (subst Owned same inv) no_queue no_reports
