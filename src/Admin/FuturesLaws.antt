-- ===== src/Admin/FuturesLaws.antt =====
-- What the futures of the admin client give, and when its thread ends.
use mathlib.Core.Path.{subst}
use rust_rdkafka.Prelude.{
  map, ℤ, ℕ, String, Bool, true, false, Option, none, some, List, [], ◌∷◌, ◌++◌, str_eq, eq_iff,
  if◌then◌else◌, map_option, ◌≡◌, refl, sym, ap, ◌∙◌, inl, inr, Option-cases, arith,
}
use rust_rdkafka.Codes.RespErr.{RespErr}
use rust_rdkafka.Codes.ErrorCode.{ErrorCode}
use rust_rdkafka.Error.Defs.{Result, ok, err, cstring_new, is_error, ◌>>=◌}
use rust_rdkafka.Admin.Results.{
  NativeSource, unknown_config, dynamic_topic_config, dynamic_broker_config,
  dynamic_default_broker_config, static_broker_config, default_config, Resource, Bogus,
  bogus_source, ResourceType, group_config, OwnedResourceSpecifier, topic_specifier,
  group_specifier, broker_specifier, extract_config_specifier,
}
use rust_rdkafka.Admin.Building.{specifier_to_native}
use rust_rdkafka.Admin.Futures.{
  ConfigSource, unknown, dynamic_topic, dynamic_broker, dynamic_default_broker, static_broker,
  default, NativeEntry, ConfigEntry, ConfigResource, extract_config_source, config_entries,
  describe_configs_results, Polled, poll_thread, describe_configs_future, resolve, check_error,
  Received, gone, received, find_entry, put_entry, collect_entries, get, entry_map,
}

-- A specifier that a request was made for is read back from a resource with the name and the type of
-- the request, if the printed id of a broker is parsed as that id.
pub extract-specifier_to_native :
    (parse : String → Option ℤ) (print : ℤ → String) (s : OwnedResourceSpecifier) (name : String)
    (typ : ResourceType) (e : RespErr)
    → ((id : ℤ) → s ≡ broker_specifier id → parse (print id) ≡ some id)
    → specifier_to_native print s ≡ ok (name, typ)
    → extract_config_specifier parse (record { typ = typ; name = name; error = e }) ≡ ok s
unfolding specifier_to_native extract_config_specifier cstring_new
extract-specifier_to_native parse print (topic_specifier t) name typ e p h = ground (arith, h)
extract-specifier_to_native parse print (group_specifier t) name typ e p h = ground (arith, h)
extract-specifier_to_native parse print (broker_specifier id) name typ e p h =
    ground (arith, h, p id refl)

-- The sources of an entry that have a name in this crate.
abbrev pub source_number : ConfigSource → NativeSource
source_number unknown = unknown_config
source_number dynamic_topic = dynamic_topic_config
source_number dynamic_broker = dynamic_broker_config
source_number dynamic_default_broker = dynamic_default_broker_config
source_number static_broker = static_broker_config
source_number default = default_config

extract_config_source_lem :
    (n : NativeSource) (c : ConfigSource) → extract_config_source n ≡ ok c → n ≡ source_number c
unfolding extract_config_source
extract_config_source_lem n c h = ground (arith, h)

-- The entries of a resource and what is made of them.
abbrev pub AreRead : List NativeEntry → List ConfigEntry → Type 0
AreRead [] [] = Unit
AreRead (n ∷ ns) (e ∷ es) =
    ((e.name ≡ n.name)
      × (e.value ≡ n.value)
      × (n.source ≡ source_number e.source)
      × (e.is_read_only ≡ n.is_read_only)
      × (e.is_default ≡ n.is_default)
      × (e.is_sensitive ≡ n.is_sensitive))
    × AreRead ns es
AreRead ns es = ⊥

-- A specifier and what librdkafka shows of its resource.
abbrev pub Specifies : (String → Option ℤ) → Resource → OwnedResourceSpecifier → Type 0
Specifies parse r (topic_specifier name) = (r.typ ≡ ResourceType.topic) × (r.name ≡ name)
Specifies parse r (group_specifier name) = (r.typ ≡ ResourceType.group) × (r.name ≡ name)
Specifies parse r (broker_specifier id) = (r.typ ≡ ResourceType.broker) × (parse r.name ≡ some id)

extract_config_specifier_lem :
    (parse : String → Option ℤ) (r : Resource) (s : OwnedResourceSpecifier)
    → extract_config_specifier parse r ≡ ok s
    → Specifies parse r s
unfolding extract_config_specifier
extract_config_specifier_lem parse r (topic_specifier t) h = ground (arith, h)
extract_config_specifier_lem parse r (group_specifier t) h = ground (arith, h)
extract_config_specifier_lem parse r (broker_specifier id) h = ground (arith, h)

-- The resources and what is made of them, which no error of a resource changes.
abbrev pub AreDescribed :
    (String → Option ℤ) → List (Resource × List NativeEntry) → List ConfigResource → Type 0
AreDescribed parse [] [] = Unit
AreDescribed parse ((r, ns) ∷ rs) (c ∷ cs) =
    Specifies parse r c.specifier × AreRead ns c.entries × AreDescribed parse rs cs
AreDescribed parse rs cs = ⊥

config_entries-AreRead :
    (ns : List NativeEntry) (es : List ConfigEntry) → config_entries ns ≡ ok es → AreRead ns es
unfolding config_entries
config_entries-AreRead [] [] h = tt
config_entries-AreRead [] (e ∷ es) h = ground (arith, h)
config_entries-AreRead (n ∷ ns) [] h = ground (arith, h)
config_entries-AreRead (n ∷ ns) (e ∷ es) h =
    ground (arith, h, extract_config_source_lem n.source e.source, config_entries-AreRead ns es)

no_error_lem : (e : RespErr) → is_error e ≡ false → e ≡ RespErr.no_error
unfolding is_error
no_error_lem RespErr.no_error h = refl
no_error_lem _ h = ground (arith, h)

describe_configs_results-AreDescribed :
    (parse : String → Option ℤ) (rs : List (Resource × List NativeEntry))
    (cs : List (Result ErrorCode ConfigResource))
    → describe_configs_results parse rs ≡ ok cs
    → (out : List ConfigResource) × (cs ≡ map ok out) × AreDescribed parse rs out
unfolding describe_configs_results
describe_configs_results-AreDescribed parse [] [] h = ([], refl, tt)
describe_configs_results-AreDescribed parse [] (c ∷ cs) h = ground (arith, h)
describe_configs_results-AreDescribed parse ((r, ns) ∷ rs) [] h = ground (arith, h)
describe_configs_results-AreDescribed parse ((r, ns) ∷ rs) (err c ∷ cs) h = ground (arith, h)
describe_configs_results-AreDescribed parse ((r, ns) ∷ rs) (ok c ∷ cs) h =
    let (out, same, described) =
      describe_configs_results-AreDescribed parse rs cs (ground (arith, h)) in
    (
      c ∷ out,
      ap (λ l. ok c ∷ l) same,
      (
        extract_config_specifier_lem parse r c.specifier (ground (arith, h)),
        config_entries-AreRead ns c.entries (ground (arith, h)),
        described,
      ),
    )

-- A DescribeConfigsFuture gives a list only when it received an event with no error and a result of
-- its type; the list then has, for each resource of the result in order, its specifier and all of its
-- entries in order, with their names, values, sources and flags. None of its elements is an error, also
-- where librdkafka has an error for the resource: the code of that error is not given.
pub describe_configs_future-AreDescribed :
    (parse : String → Option ℤ) (r : Received (List (Resource × List NativeEntry)))
    (cs : List (Result ErrorCode ConfigResource))
    → describe_configs_future parse r ≡ ok cs
    → (rs : List (Resource × List NativeEntry)) × (e : RespErr) × (typ : ℤ) × (out : List
        ConfigResource)
      × (r ≡ received e (some rs) typ)
      × (e ≡ RespErr.no_error)
      × (cs ≡ map ok out)
      × AreDescribed parse rs out
unfolding describe_configs_future resolve check_error
describe_configs_future-AreDescribed parse gone cs h = ground (arith, h)
describe_configs_future-AreDescribed parse (received e none typ) cs h = ground (arith, h)
describe_configs_future-AreDescribed parse (received e (some rs) typ) cs h =
    let (out, same, described) =
      describe_configs_results-AreDescribed parse rs cs (ground (arith, h)) in
    (rs, e, typ, out, refl, no_error_lem e (ground (arith, h)), same, described)

bind-err :
    {X A B : Type 0} (r : Result X A) (f : A → Result X B)
    → ((a : A) → (e : X) × (f a ≡ err e))
    → (e : X) × (r >>= f ≡ err e)
bind-err (ok a) f h = h a
bind-err (err e) f h = (e, refl)

err-bind :
    {X A B : Type 0} (r : Result X A) (f : A → Result X B)
    → (e : X) × (r ≡ err e)
    → (e : X) × (r >>= f ≡ err e)
err-bind (ok a) f (e, h) = ground (arith, h)
err-bind (err e) f h = (e, refl)

config_entries-group_config :
    (pre post : List NativeEntry) (n : NativeEntry)
    → n.source ≡ group_config
    → (e : Bogus) × (config_entries (pre ++ n ∷ post) ≡ err e)
unfolding config_entries extract_config_source
config_entries-group_config [] post n h = (bogus_source group_config, rw h refl)
config_entries-group_config (p ∷ pre) post n h =
    bind-err (extract_config_source p.source) _ λ source.
      err-bind (config_entries (pre ++ n ∷ post)) _ (config_entries-group_config pre post n h)

-- An entry with the source that librdkafka gives to the configuration of a group makes the whole list
-- an error, whatever the other entries and resources are.
pub describe_configs_results-group_config :
    (parse : String → Option ℤ) (before after : List (Resource × List NativeEntry)) (r : Resource)
    (pre post : List NativeEntry) (n : NativeEntry)
    → n.source ≡ group_config
    → (e : Bogus) × (describe_configs_results parse (before ++ (r, pre ++ n ∷ post) ∷ after)
        ≡ err e)
unfolding describe_configs_results
describe_configs_results-group_config parse [] after r pre post n h =
    bind-err (extract_config_specifier parse r) _ λ specifier.
      err-bind (config_entries (pre ++ n ∷ post)) _ (config_entries-group_config pre post n h)
describe_configs_results-group_config parse (b ∷ before) after r pre post n h =
    bind-err (extract_config_specifier parse b.0) _ λ specifier.
      bind-err (config_entries b.1) _ λ entries.
        err-bind (describe_configs_results parse (before ++ (r, pre ++ n ∷ post) ∷ after)) _
          (describe_configs_results-group_config parse before after r pre post n h)

-- The polls up to the end: events, each sent, and idle polls before the stop was asked for; then an
-- idle one after that.
pub data Drains {E : Type 0} : List (Polled E) → List (ℕ × E) → List (Polled E) → Type 0 where
  ends : {ps : List (Polled E)} → Drains (record { event = none; should_stop = true } ∷ ps) [] ps
  waits :
      {ps : List (Polled E)} {sent : List (ℕ × E)} {rest : List (Polled E)}
      → Drains ps sent rest
      → Drains (record { event = none; should_stop = false } ∷ ps) sent rest
  sends :
      {ps : List (Polled E)} {sent : List (ℕ × E)} {rest : List (Polled E)} {e : ℕ × E} {b : Bool}
      → Drains ps sent rest
      → Drains (record { event = some e; should_stop = b } ∷ ps) (e ∷ sent) rest

some_inj : {A : Type 0} {a b : A} → ◌≡◌ {A = Option A} (some a) (some b) → a ≡ b
some_inj h = ground (arith, h)

poll-Drains :
    {E : Type 0} (event : Option (ℕ × E)) (stop : Bool) (ps : List (Polled E)) (sent : List (ℕ × E))
    (rest : List (Polled E))
    → ((s : List (ℕ × E)) (r : List (Polled E)) → poll_thread ps ≡ some (s, r) → Drains ps s r)
    → poll_thread (record { event = event; should_stop = stop } ∷ ps) ≡ some (sent, rest)
    → Drains (record { event = event; should_stop = stop } ∷ ps) sent rest
unfolding poll_thread
poll-Drains none true ps sent rest ih h =
    subst (λ r. Drains (record { event = none; should_stop = true } ∷ ps) r.0 r.1) (some_inj h) ends
poll-Drains none false ps sent rest ih h = waits (ih sent rest h)
poll-Drains (some e) stop ps sent rest ih h = elim (Option-cases (poll_thread ps)) [
  | inl q ↦ ground (arith, h, q)
  | inr (r, q) ↦
      let whole : some (e ∷ r.0, r.1) ≡ some (sent, rest) =
        sym (ap (map_option (λ x. (e ∷ x.0, x.1))) q) ∙ h in
      subst (λ x. Drains (record { event = some e; should_stop = stop } ∷ ps) x.0 x.1)
        (some_inj whole) (sends (ih r.0 r.1 q))
]

-- The thread of the admin client ends by an idle poll after the stop was asked for, and not before;
-- by then it has sent every event that it polled to the sender of its opaque, in order.
pub poll_thread-Drains :
    {E : Type 0} (ps : List (Polled E)) (sent : List (ℕ × E)) (rest : List (Polled E))
    → poll_thread ps ≡ some (sent, rest)
    → Drains ps sent rest
unfolding poll_thread
poll_thread-Drains [] sent rest h = ground (arith, h)
poll_thread-Drains (p ∷ ps) sent rest h =
    poll-Drains p.event p.should_stop ps sent rest (poll_thread-Drains ps) h

abbrev HaveDistinctNames : List ConfigEntry → Type 0
HaveDistinctNames [] = Unit
HaveDistinctNames (e ∷ es) = (find_entry e.name es ≡ none) × HaveDistinctNames es

find-put_entry :
    (name : String) (new : ConfigEntry) (m : List ConfigEntry)
    → find_entry name (put_entry new m)
      ≡ (if str_eq new.name name then some new else find_entry name m)
unfolding find_entry put_entry
find-put_entry name new [] = refl
find-put_entry name new (e ∷ m) = ground (
  arith,
  find-put_entry name new m,
  eq_iff e.name new.name,
  eq_iff e.name name,
  eq_iff new.name name,
)

find-collect_entries :
    (name : String) (es m : List ConfigEntry)
    → HaveDistinctNames es
    → find_entry name (collect_entries es m)
      ≡ elim (find_entry name es) [ some e ↦ some e | none ↦ find_entry name m ]
unfolding find_entry collect_entries
find-collect_entries name [] m d = refl
find-collect_entries name (e ∷ es) m d = ground (
  arith,
  d.0,
  find-collect_entries name es (put_entry e m) d.1,
  find-put_entry name e m,
  eq_iff e.name name,
)

-- The map of the entries of a resource with distinct names has, for every name, what `get` finds.
pub find-entry_map :
    (r : ConfigResource) (name : String)
    → HaveDistinctNames r.entries
    → find_entry name (entry_map r) ≡ get r name
unfolding entry_map get
find-entry_map r name d = ground (arith, find-collect_entries name r.entries [] d)
