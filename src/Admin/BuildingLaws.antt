-- ===== src/Admin/BuildingLaws.antt =====
-- What the request objects of the admin client hold.
use mathlib.Core.Path.{subst}
use mathlib.Core.List.{append_assoc, append-nil}
use rust_rdkafka.Prelude.{
  ℕ, suc, ℤ, negsuc, as_i32, String, List, [], ◌∷◌, ◌++◌, length, ◌≡◌, refl, ◌∙◌, arith, inl, inr,
}
use rust_rdkafka.Codes.RespErr.{RespErr}
use rust_rdkafka.Error.Defs.{KafkaResult, Result, ok, err, cstring_new, Result-cases}
use rust_rdkafka.ErrBuf.{ErrBuf, new}
use rust_rdkafka.Admin.Requests.{RequestError, AdminOptions}
use rust_rdkafka.Admin.Building.{
  Build, build_checked, Native, NativeTopic, NewTopic, TopicReplication, fixed, variable,
  set_replicas, replication_factor, create_topic, assign_replicas, set_configs, topic_to_native,
  each, request, options, build_topic, create_topics_inner, install_config, give, ◌>>=◌,
}

-- The replica assignments with their partitions, from `i` on.
abbrev pub numbered : ℕ → List (List ℤ) → List (ℤ × List ℤ)
numbered i [] = []
numbered i (ids ∷ rest) = (as_i32 i, ids) ∷ numbered (suc i) rest

set_configs-ok :
    (set_config : List (String × String) → String → String → RespErr)
    (done entries all : List (String × String)) (buf : ErrBuf)
    → (set_configs set_config done entries buf).0 ≡ ok all
    → all ≡ done ++ entries
unfolding set_configs cstring_new
set_configs-ok set_config done [] all buf h = ground (arith, h, append-nil done)
set_configs-ok set_config done ((k, v) ∷ rest) all buf h = ground (
  arith,
  h,
  append_assoc done ((k, v) ∷ []) rest,
  set_configs-ok set_config (done ++ (k, v) ∷ []) rest all buf,
)

set_replicas-ok :
    (native : Native) (i : ℕ) (rows : List (List ℤ)) (t t' : NativeTopic) (buf : ErrBuf)
    → (set_replicas native i rows t buf).0 ≡ ok t'
    → t' ≡ record t { replicas = t.replicas ++ numbered i rows }
unfolding set_replicas
set_replicas-ok native i [] t t' buf h = ground (arith, h, append-nil t.replicas)
set_replicas-ok native i (ids ∷ rows) t t' buf h =
    let answer = native.set_replica_assignment t (as_i32 i) ids buf in
    ground (
      arith,
      h,
      append_assoc t.replicas ((as_i32 i, ids) ∷ []) (numbered (suc i) rows),
      set_replicas-ok native (suc i) rows
          (record t { replicas = t.replicas ++ (as_i32 i, ids) ∷ [] }) t' answer.1,
    )

-- What a topic's request has: all that it was given.
abbrev pub IsMade : NewTopic → NativeTopic → Type 0
IsMade t made =
    (made.name ≡ t.name)
    × (made.num_partitions ≡ t.num_partitions)
    × (made.config ≡ t.config)
    × elim t.replication [
      | fixed n ↦ (made.replication_factor ≡ n) × (made.replicas ≡ [])
      | variable rows ↦
          (as_i32 (length rows) ≡ t.num_partitions)
          × (made.replication_factor ≡ negsuc 0)
          × (made.replicas ≡ numbered 0 rows)
    ]

bind-ok :
    {A B : Type 0} (f : Build A) (g : A → Build B) (buf : ErrBuf) (b : B)
    → ((f >>= g) buf).0 ≡ ok b
    → (a : A) × ((f buf).0 ≡ ok a) × ((g a (f buf).1).0 ≡ ok b)
bind-ok f g buf b h = elim (Result-cases (f buf).0) [
  | inl (a, q) ↦ (a, q, ground (arith, h, q))
  | inr (e, q) ↦ ground (arith, h, q)
]

assign_replicas-ok :
    (native : Native) (r : TopicReplication) (made t' : NativeTopic) (buf : ErrBuf)
    → (assign_replicas native r made buf).0 ≡ ok t'
    → t' ≡ record made {
      replicas = elim r [
        | fixed n ↦ made.replicas
        | variable rows ↦ made.replicas ++ numbered 0 rows
      ];
    }
assign_replicas-ok native (fixed n) made t' buf h = ground (arith, h)
assign_replicas-ok native (variable rows) made t' buf h =
    set_replicas-ok native 0 rows made t' buf h

install_config-ok :
    (native : Native) (t : NewTopic) (made t' : NativeTopic) (buf : ErrBuf)
    → (install_config native t made buf).0 ≡ ok t'
    → t' ≡ record made { config = t.config }
unfolding install_config
install_config-ok native t made t' buf h =
    let set_config : List (String × String) → String → String → RespErr =
      λ done. native.topic_set_config (record made { config = done }) in
    let done =
      bind-ok (set_configs set_config [] t.config)
        (λ config. give (ok (record made { config = config }))) buf t' h in
    ground (arith, done.2, set_configs-ok set_config [] t.config done.0 buf done.1)

create_topic-ok :
    (native : Native) (name : String) (n repl : ℤ) (made : NativeTopic) (buf : ErrBuf)
    → (create_topic native name n repl buf).0 ≡ ok made
    → made ≡ record {
      name = name;
      num_partitions = n;
      replication_factor = repl;
      replicas = [];
      config = [];
    }
unfolding create_topic
create_topic-ok native name n repl made buf h = ground (arith, h)

build_topic-IsMade :
    (native : Native) (t : NewTopic) (name : String) (repl : ℤ) (made : NativeTopic) (buf : ErrBuf)
    → name ≡ t.name
    → replication_factor t ≡ ok repl
    → (build_topic native t name repl buf).0 ≡ ok made
    → IsMade t made
unfolding replication_factor build_topic
build_topic-IsMade native t name repl made buf n r h =
    let first =
      bind-ok (create_topic native name t.num_partitions repl)
        (λ created. assign_replicas native t.replication created >>= install_config native t) buf
        made h in
    let buf1 = (create_topic native name t.num_partitions repl buf).1 in
    let second =
      bind-ok (assign_replicas native t.replication first.0) (install_config native t) buf1 made
        first.2 in
    let a = create_topic-ok native name t.num_partitions repl first.0 buf first.1 in
    let b = assign_replicas-ok native t.replication first.0 second.0 buf1 second.1 in
    let c = install_config-ok native t second.0 made _ second.2 in ground (arith, n, r, a, b, c)

cstring_new-same : (s name : String) → cstring_new s ≡ ok name → name ≡ s
unfolding cstring_new
cstring_new-same s name h = ground (arith, h)

build_checked-IsMade :
    (native : Native) (t : NewTopic) (name : KafkaResult String) (repl : Result RequestError ℤ)
    (made : NativeTopic) (buf : ErrBuf)
    → cstring_new t.name ≡ name
    → replication_factor t ≡ repl
    → (build_checked native t name repl buf).0 ≡ ok made
    → IsMade t made
build_checked-IsMade native t (err e) repl made buf q r h = ground (arith, h)
build_checked-IsMade native t (ok name) (err e) made buf q r h = ground (arith, h)
build_checked-IsMade native t (ok name) (ok repl) made buf q r h =
    build_topic-IsMade native t name repl made buf (cstring_new-same t.name name q) r h

topic_to_native-IsMade :
    (native : Native) (t : NewTopic) (made : NativeTopic) (buf : ErrBuf)
    → (topic_to_native native t buf).0 ≡ ok made
    → IsMade t made
unfolding topic_to_native
topic_to_native-IsMade native t made buf h =
    build_checked-IsMade native t (cstring_new t.name) (replication_factor t) made buf refl refl h

-- The elements of two lists are related one by one.
abbrev pub Each : {A B : Type 0} → (A → B → Type 0) → List A → List B → Type 0
Each R [] [] = Unit
Each R (x ∷ xs) (y ∷ ys) = R x y × Each R xs ys
Each R xs ys = ⊥

ok-inj : {A : Type 0} {a b : A} → ◌≡◌ {A = Result RequestError A} (ok a) (ok b) → a ≡ b
ok-inj h = ground (arith, h)

each-Each :
    {A B : Type 0} (f : A → Build B) (R : A → B → Type 0)
    → ((x : A) (y : B) (buf : ErrBuf) → (f x buf).0 ≡ ok y → R x y)
    → (xs : List A) (ys : List B) (buf : ErrBuf) → (each f xs buf).0 ≡ ok ys
    → Each R xs ys
unfolding each
each-Each f R good [] ys buf h = subst (Each R []) (ok-inj h) tt
each-Each f R good (x ∷ xs) ys buf h =
    let first = bind-ok (f x) (λ y. each f xs >>= λ rest. give (ok (y ∷ rest))) buf ys h in
    let second = bind-ok (each f xs) (λ rest. give (ok (first.0 ∷ rest))) (f x buf).1 ys first.2 in
    subst (Each R (x ∷ xs)) (ok-inj second.2)
      (good x first.0 buf first.1, each-Each f R good xs second.0 (f x buf).1 second.1)

request-each :
    {A B : Type 0} (native : Native) (print : ℤ → String) (f : A → Build B) (xs : List A)
    (opts : AdminOptions) (ys : List B)
    → request native print f xs opts ≡ ok ys
    → (each f xs new).0 ≡ ok ys
unfolding request
request-each native print f xs opts ys h =
    let first =
      bind-ok (each f xs) (λ zs. options native print opts >>= λ u. give (ok zs)) new ys h in
    let second =
      bind-ok (options native print opts) (λ u. give (ok first.0)) (each f xs new).1 ys first.2 in
    first.1 ∙ second.2

-- A request for new topics that librdkafka is called with has one object for each topic, in order,
-- with its name, its number of partitions and its whole configuration, and with its replication: a
-- fixed factor and no assignment, or the factor -1 and the assignment of each partition in order,
-- whose number as an i32 is that of the partitions.
pub create_topics_inner-IsMade :
    (native : Native) (print : ℤ → String) (topics : List NewTopic) (opts : AdminOptions)
    (made : List NativeTopic)
    → create_topics_inner native print topics opts ≡ ok made
    → Each IsMade topics made
unfolding create_topics_inner
create_topics_inner-IsMade native print topics opts made h =
    each-Each (topic_to_native native) IsMade (topic_to_native-IsMade native) topics made new
      (request-each native print (topic_to_native native) topics opts made h)
