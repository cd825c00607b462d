-- ===== src/Admin/Building.antt =====
-- How admin.rs builds librdkafka's request objects: `NewTopic::to_native`, `AlterConfig::to_native`
-- and the functions `*_inner` of the client. The error buffer is one for a request and passed on from
-- call to call. An object is what it was made with and what its setters accepted.
use rust_rdkafka.Prelude.{
  ℕ, suc, ℤ, negsuc, as_i32, eqb_ℤ, String, Bool, List, [], ◌∷◌, ◌++◌, length, if◌then◌else◌,
}
use rust_rdkafka.Codes.RespErr.{RespErr}
use rust_rdkafka.Error.Defs.{KafkaResult, Result, ok, err, cstring_new}
use rust_rdkafka.ErrBuf.{ErrBuf, to_string, new as new_buffer}
use rust_rdkafka.Client.Config.{ConfMap, insert}
use rust_rdkafka.TopicPartitionList.Native.{Tpl}
use rust_rdkafka.Admin.Requests.{
  RequestError, creation, other, error_text, mismatched_assignment, lift, check_rdkafka_invalid_arg,
  AdminOptions, Setting, options_to_native, NewPartitions, Maker, partitions_to_native,
}
use rust_rdkafka.Admin.Results.{
  ResourceType, topic, group, broker, OwnedResourceSpecifier, topic_specifier, group_specifier,
  broker_specifier,
}

-- Code that uses the error buffer: its result, and the buffer afterwards.
abbrev pub Build {ℓ} : Type ℓ → Type ℓ
Build A = ErrBuf → Result RequestError A × ErrBuf

infixl 5 ◌>>=◌
abbrev pub ◌>>=◌ {ℓ κ} : {A : Type ℓ} {B : Type κ} → Build A → (A → Build B) → Build B
(f >>= g) buf = let done = f buf in elim done.0 [ ok a ↦ g a done.1 | err e ↦ (err e, done.1) ]

abbrev pub give {ℓ} : {A : Type ℓ} → Result RequestError A → Build A
give r buf = (r, buf)

-- `check_rdkafka_invalid_arg(res, err_buf)?`.
abbrev pub check : RespErr → Build (Unit {0})
check res buf = (check_rdkafka_invalid_arg res buf, buf)

-- `TopicReplication`.
pub data TopicReplication : Type 0 where
  fixed : ℤ → TopicReplication
  variable : List (List ℤ) → TopicReplication

pub record NewTopic : Type 0 where
  pub name : String
  pub num_partitions : ℤ
  pub replication : TopicReplication
  pub config : List (String × String)

unfoldable pub new_topic : String → ℤ → TopicReplication → NewTopic
new_topic name num_partitions replication = record {
  name = name;
  num_partitions = num_partitions;
  replication = replication;
  config = [];
}

unfoldable pub set : NewTopic → String → String → NewTopic
set t key value = record t { config = t.config ++ (key, value) ∷ [] }

-- `rd_kafka_NewTopic_t`.
pub record NativeTopic : Type 0 where
  pub name : String
  pub num_partitions : ℤ
  pub replication_factor : ℤ
  pub replicas : List (ℤ × List ℤ)
  pub config : List (String × String)

-- `rd_kafka_ConfigResource_t` of a request.
pub record NativeConfig : Type 0 where
  pub typ : ResourceType
  pub name : String
  pub config : List (String × String)

-- The functions of librdkafka that are called, by what they return and leave in the buffer that they
-- are given. `_set_config` is given none.
pub record Native : Type 0 where
  pub new_topic : String → ℤ → ℤ → ErrBuf → Bool × ErrBuf
  pub set_replica_assignment : NativeTopic → ℤ → List ℤ → ErrBuf → RespErr × ErrBuf
  pub topic_set_config : NativeTopic → String → String → RespErr
  pub resource_set_config : NativeConfig → String → String → RespErr
  pub make_partitions : ErrBuf → Maker
  pub new_delete_records : Tpl → Bool
  pub options : ErrBuf → Setting → RespErr × ErrBuf

-- The replication that the object is made with.
unfoldable pub replication_factor : NewTopic → Result RequestError ℤ
replication_factor t = elim t.replication [
  | fixed n ↦ ok n
  | variable partitions ↦
      if eqb_ℤ (as_i32 (length partitions)) t.num_partitions
      then ok (negsuc 0)
      else err (creation (mismatched_assignment t.name (length partitions) t.num_partitions))
]

-- The loop over `config`; `set_config` is the function of librdkafka for the object.
unfoldable pub set_configs :
    (List (String × String) → String → String → RespErr)
    → List (String × String)
    → List (String × String)
    → Build (List (String × String))
unfolding check_rdkafka_invalid_arg cstring_new
set_configs set_config done [] buf = (ok done, buf)
set_configs set_config done (entry ∷ rest) buf = elim (cstring_new entry.0) [
  | err e ↦ (err (other e), buf)
  | ok key ↦ elim (cstring_new entry.1) [
    | err e ↦ (err (other e), buf)
    | ok val ↦ elim (check_rdkafka_invalid_arg (set_config done key val) buf) [
      | ok u ↦ set_configs set_config (done ++ (key, val) ∷ []) rest buf
      | err e ↦ (err e, buf)
    ]
  ]
]

module _ (native : Native) where
  unfoldable pub set_replicas : ℕ → List (List ℤ) → NativeTopic → Build NativeTopic
  unfolding check_rdkafka_invalid_arg
  set_replicas i [] t buf = (ok t, buf)
  set_replicas i (broker_ids ∷ rest) t buf =
      let answer = native.set_replica_assignment t (as_i32 i) broker_ids buf in
      elim (check_rdkafka_invalid_arg answer.0 answer.1) [
        | ok u ↦
            set_replicas (suc i) rest
              (record t { replicas = t.replicas ++ (as_i32 i, broker_ids) ∷ [] }) answer.1
        | err e ↦ (err e, answer.1)
      ]

  unfoldable pub create_topic : String → ℤ → ℤ → Build NativeTopic
  unfolding to_string
  create_topic name num_partitions repl buf =
      let made = native.new_topic name num_partitions repl buf in
      if made.0
      then (
        ok (record {
          name = name;
          num_partitions = num_partitions;
          replication_factor = repl;
          replicas = [];
          config = [];
        }),
        made.1,
      )
      else (err (creation (error_text (to_string made.1))), made.1)

  abbrev pub assign_replicas : TopicReplication → NativeTopic → Build NativeTopic
  assign_replicas (fixed n) t = give (ok t)
  assign_replicas (variable assignment) t = set_replicas 0 assignment t

  unfoldable pub install_config : NewTopic → NativeTopic → Build NativeTopic
  unfolding set_configs
  install_config t made =
      set_configs (λ done. native.topic_set_config (record made { config = done })) [] t.config
      >>= λ config. give (ok (record made { config = config }))

  -- `NewTopic::to_native`: after its first two checks, of what they give, and whole.
  unfoldable pub build_topic : NewTopic → String → ℤ → Build NativeTopic
  unfolding create_topic install_config
  build_topic t name repl = create_topic name t.num_partitions repl >>= λ made.
      assign_replicas t.replication made >>= install_config t

  abbrev pub build_checked :
      NewTopic → KafkaResult String → Result RequestError ℤ → Build NativeTopic
  build_checked t (err e) repl buf = (err (other e), buf)
  build_checked t (ok name) (err e) buf = (err e, buf)
  build_checked t (ok name) (ok repl) buf = build_topic t name repl buf

  unfoldable pub topic_to_native : NewTopic → Build NativeTopic
  unfolding replication_factor cstring_new
  topic_to_native t = build_checked t (cstring_new t.name) (replication_factor t)

-- `AlterConfig`; a borrowed and an owned specifier are one type here.
pub record AlterConfig : Type 0 where
  pub specifier : OwnedResourceSpecifier
  pub entries : ConfMap

unfoldable pub alter_config : OwnedResourceSpecifier → AlterConfig
alter_config specifier = record { specifier = specifier; entries = [] }

unfoldable pub set_entry : AlterConfig → String → String → AlterConfig
unfolding insert
set_entry a key value = record a { entries = insert key value a.entries }

-- The name and the type that librdkafka is given; `print` is `format!("{}", id)`.
unfoldable pub specifier_to_native :
    (ℤ → String) → OwnedResourceSpecifier → KafkaResult (String × ResourceType)
unfolding cstring_new
specifier_to_native print (topic_specifier name) = elim (cstring_new name) [
  | ok c ↦ ok (c, topic)
  | err e ↦ err e
]
specifier_to_native print (group_specifier name) = elim (cstring_new name) [
  | ok c ↦ ok (c, group)
  | err e ↦ err e
]
specifier_to_native print (broker_specifier id) = elim (cstring_new (print id)) [
  | ok c ↦ ok (c, broker)
  | err e ↦ err e
]

-- `for t in topics { native_topics.push(t.to_native(&mut err_buf)?) }`.
unfoldable pub each : {A B : Type 0} → (A → Build B) → List A → Build (List B)
each f [] = give (ok [])
each f (x ∷ xs) = f x >>= λ y. each f xs >>= λ ys. give (ok (y ∷ ys))

module _ (native : Native) (print : ℤ → String) where
  -- `AlterConfig::to_native`.
  unfoldable pub alter_to_native : AlterConfig → Build NativeConfig
  unfolding set_configs specifier_to_native
  alter_to_native a = give (lift (specifier_to_native print a.specifier)) >>= λ named.
      let made : NativeConfig = record { typ = named.1; name = named.0; config = [] } in
      set_configs (λ done. native.resource_set_config (record made { config = done })) [] a.entries
      >>= λ config. give (ok (record made { config = config }))

  -- `opts.to_native`, and `NewPartitions::to_native`.
  unfoldable pub options : AdminOptions → Build (Unit {0})
  unfolding options_to_native
  options opts buf = (options_to_native (native.options buf) opts, buf)

  unfoldable pub new_partitions_to_native : NewPartitions → Build NewPartitions
  unfolding partitions_to_native
  new_partitions_to_native p buf = elim (partitions_to_native (native.make_partitions buf) p).1 [
    | ok u ↦ (ok p, buf)
    | err e ↦ (err e, buf)
  ]

  unfoldable pub new_delete_records : Tpl → Build Tpl
  unfolding to_string
  new_delete_records t buf =
      if native.new_delete_records t
      then (ok t, buf)
      else (err (creation (error_text (to_string buf))), buf)

  -- The objects that librdkafka is called with, after a request's objects were built in order and
  -- then its options. There is no call after an error.
  unfoldable pub request :
      {A B : Type 0} → (A → Build B) → List A → AdminOptions → Result RequestError (List B)
  unfolding each options new_buffer
  request to_native xs opts =
      ((each to_native xs >>= λ ys. options opts >>= λ u. give (ok ys)) new_buffer).0

  unfoldable pub create_topics_inner :
      List NewTopic → AdminOptions → Result RequestError (List NativeTopic)
  unfolding request topic_to_native
  create_topics_inner topics opts = request (topic_to_native native) topics opts

  -- `delete_topics_inner`, and `delete_groups_inner`, which is the same but for the request.
  unfoldable pub delete_topics_inner :
      List String → AdminOptions → Result RequestError (List String)
  unfolding request cstring_new
  delete_topics_inner names opts = request (λ name. give (lift (cstring_new name))) names opts

  unfoldable pub create_partitions_inner :
      List NewPartitions → AdminOptions → Result RequestError (List NewPartitions)
  unfolding request new_partitions_to_native
  create_partitions_inner ps opts = request new_partitions_to_native ps opts

  unfoldable pub delete_records_inner : Tpl → AdminOptions → Result RequestError (List Tpl)
  unfolding request new_delete_records
  delete_records_inner offsets opts = request new_delete_records (offsets ∷ []) opts

  unfoldable pub describe_configs_inner :
      List OwnedResourceSpecifier
      → AdminOptions
      → Result RequestError (List (String × ResourceType))
  unfolding request specifier_to_native
  describe_configs_inner specifiers opts =
      request (λ s. give (lift (specifier_to_native print s))) specifiers opts

  unfoldable pub alter_configs_inner :
      List AlterConfig → AdminOptions → Result RequestError (List NativeConfig)
  unfolding request alter_to_native
  alter_configs_inner configs opts = request alter_to_native configs opts
