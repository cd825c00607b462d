-- ===== src/Admin/Laws.antt =====
-- What the admin client reports.
use mathlib.Core.Path.{subst}
use rust_rdkafka.Prelude.{
  Bool, if◌then◌else◌, sym, suc, ◌+◌, ◌<◌, as_i32, false, true, none, ℕ, ◌≡◌, ◌≢◌, ◌≤◌, refl, ℤ,
  String, Option, some, List, [], ◌∷◌, length, map, arith, inl, inr,
}
use rust_rdkafka.Codes.RespErr.{RespErr}
use rust_rdkafka.Codes.ErrorCode.{ErrorCode}
use rust_rdkafka.Codes.Convert.{to_error_code}
use rust_rdkafka.Error.Defs.{Result-cases, Result, ok, err, is_error, cstring_new, KafkaResult}
use rust_rdkafka.ErrBuf.{ErrBuf}
use rust_rdkafka.ErrBuf.Laws.{Holds, to_string-Holds}
use rust_rdkafka.Admin.Requests.{
  check_rdkafka_invalid_arg, creation, error_text, NewPartitions, Maker, PartitionsCall, makes,
  sets_replicas, Traced, Checked, set_assignment, make_partitions, check_count,
  partitions_to_native, other,
}
use rust_rdkafka.Admin.Results.{
  TopicAnswer, TopicResult, build_topic_results, Resource, OwnedResourceSpecifier,
  extract_config_specifier, alter_configs_results,
}

abbrev pub Tells : TopicAnswer → TopicResult → Type 0
Tells t (ok name) = (name ≡ t.name) × (t.error ≡ RespErr.no_error)
Tells t (err (name, code)) =
    (name ≡ t.name) × (t.error ≢ RespErr.no_error) × (code ≡ to_error_code t.error)

abbrev pub AllTell : List TopicAnswer → List TopicResult → Type 0
AllTell [] [] = Unit
AllTell (t ∷ ts) (r ∷ rs) = Tells t r × AllTell ts rs
AllTell _ _ = ⊥

tell_one :
    (e : RespErr) (name : String) (ts : List TopicAnswer)
    → AllTell ts (build_topic_results ts)
    → let t : TopicAnswer = record { name = name; error = e } in
      AllTell (t ∷ ts) (build_topic_results (t ∷ ts))
unfolding build_topic_results is_error
tell_one RespErr.no_error name ts ih = ((refl, refl), ih)
tell_one _ name ts ih = ((refl, ground arith, refl), ih)

-- The results of a topic operation: one for each topic of librdkafka's answer, in order, with the
-- topic's name, and with its error exactly when it has one.
pub build_topic_results_lem : (ts : List TopicAnswer) → AllTell ts (build_topic_results ts)
unfolding build_topic_results is_error
build_topic_results_lem [] = tt
build_topic_results_lem (t ∷ ts) = tell_one t.error t.name ts (build_topic_results_lem ts)

-- The calls that set assignments from the number `i` on, and those of a whole request: the object is made
-- for `count` partitions, then each is for a number below `count`, none left out, so that there are never
-- more than the object has room for.
abbrev pub AreNumbered : ℕ → ℕ → List PartitionsCall → Type 0
AreNumbered count i [] = Unit
AreNumbered count i (sets_replicas id broker_ids ∷ calls) =
    (i < count) × (id ≡ as_i32 i) × AreNumbered count (suc i) calls
AreNumbered count i (makes name n ∷ calls) = ⊥

abbrev pub HasRoom : ℕ → List PartitionsCall → Type 0
HasRoom count [] = Unit
HasRoom count (makes name n ∷ calls) = (n ≡ count) × AreNumbered count 0 calls
HasRoom count (sets_replicas id broker_ids ∷ calls) = ⊥

numbered_later :
    (count i : ℕ) (later : Traced) (r : Checked)
    → AreNumbered count i later.0
    → AreNumbered count i (elim r as (λ r. Traced) [ err e ↦ ([], err e) | ok u ↦ later ]).0
numbered_later count i later (ok u) h = h
numbered_later count i later (err e) h = tt

set_assignment-AreNumbered :
    (m : Maker) (count i : ℕ) (a : List (List ℤ))
    → i + length a ≤ count
    → AreNumbered count i (set_assignment m i a).0
unfolding set_assignment
set_assignment-AreNumbered m count i [] h = tt
set_assignment-AreNumbered m count i (broker_ids ∷ rest) h =
    let called = m.set_replicas (as_i32 i) broker_ids in
    let later = set_assignment-AreNumbered m count (suc i) rest (omega (arith, h)) in
    (
      omega (arith, h),
      refl,
      numbered_later count (suc i) (set_assignment m (suc i) rest)
          (check_rdkafka_invalid_arg called.0 called.1) later,
    )

numbered_made :
    (m : Maker) (count : ℕ) (made : Bool) (assignment : Option (List (List ℤ))) (failed : Traced)
    → failed.0 ≡ []
    → ((a : List (List ℤ)) → assignment ≡ some a → length a ≤ count)
    → AreNumbered count 0
        (if made
          then (elim assignment as (λ x. Traced) [
            | none ↦ ([], ok tt)
            | some a ↦ set_assignment m 0 a
          ])
          else failed).0
numbered_made m count false assignment failed none_made h =
    subst (AreNumbered count 0) (sym none_made) tt
numbered_made m count true none failed none_made h = tt
numbered_made m count true (some a) failed none_made h =
    set_assignment-AreNumbered m count 0 a (omega (arith, h a refl))

make_partitions-HasRoom :
    (m : Maker) (p : NewPartitions) (name : String)
    → check_count p ≡ ok tt
    → HasRoom p.new_partition_count (make_partitions m p name).0
unfolding make_partitions check_count
make_partitions-HasRoom m p name h =
    (refl, numbered_made m p.new_partition_count _ p.assignment _ refl (λ a e. ground arith))

checked_count :
    (m : Maker) (p : NewPartitions) (name : String) (c : Checked)
    → check_count p ≡ c
    → HasRoom p.new_partition_count
        (elim c as (λ x. Traced) [ err e ↦ ([], err e) | ok u ↦ make_partitions m p name ]).0
checked_count m p name (err e) h = tt
checked_count m p name (ok u) h = make_partitions-HasRoom m p name h

checked_name :
    (m : Maker) (p : NewPartitions) (name : KafkaResult String)
    → HasRoom p.new_partition_count
        (elim name as (λ x. Traced) [
          | err e ↦ ([], err (other e))
          | ok text ↦ elim (check_count p) as (λ x. Traced) [
            | err e ↦ ([], err e)
            | ok u ↦ make_partitions m p text
          ]
        ]).0
checked_name m p (err e) = tt
checked_name m p (ok text) = checked_count m p text (check_count p) refl

-- Whatever a request for new partitions ends with, librdkafka was asked to set an assignment only for an
-- object of the requested total of partitions, for the numbers 0, 1 and so on, each below that total, so
-- that no more assignments are added than the object has room for.
pub partitions_to_native-HasRoom :
    (m : Maker) (p : NewPartitions) → HasRoom p.new_partition_count (partitions_to_native m p).0
unfolding partitions_to_native cstring_new
partitions_to_native-HasRoom m p = checked_name m p (cstring_new p.topic_name)

-- Whatever errors the resources have, a list of results that `AlterConfigsFuture` gives has none.
pub alter_configs_results-all_ok :
    (parse : String → Option ℤ) (rs : List Resource)
    (out : List (Result (OwnedResourceSpecifier × ErrorCode) OwnedResourceSpecifier))
    → alter_configs_results parse rs ≡ ok out
    → (specifiers : List OwnedResourceSpecifier) × (out ≡ map ok specifiers)
unfolding alter_configs_results
alter_configs_results-all_ok parse [] out h = ([], ground arith)
alter_configs_results-all_ok parse (r ∷ rs) out h =
    elim (Result-cases (extract_config_specifier parse r)) [
      | inr (x, e) ↦ absurd (ground arith)
      | inl (s, e) ↦ elim (Result-cases (alter_configs_results parse rs)) [
        | inr (x, f) ↦ absurd (ground arith)
        | inl (rest, f) ↦
            let ih = alter_configs_results-all_ok parse rs rest f in
            (s ∷ ih.0, ground (arith, ih.1))
      ]
    ]

-- When librdkafka has written a text to the error buffer, the message of an invalid argument is that
-- text, also when it is empty: the message "invalid argument" is never used.
pub check_rdkafka_invalid_arg_text :
    (res : RespErr) (e : ErrBuf) (written : List ℕ)
    → to_error_code res ≡ ErrorCode.invalid_argument
    → Holds e written
    → check_rdkafka_invalid_arg res e ≡ err (creation (error_text (some written)))
unfolding check_rdkafka_invalid_arg
check_rdkafka_invalid_arg_text res e written invalid holds =
    let (read, size) = to_string-Holds e written holds in ground (arith, invalid, read, size)
