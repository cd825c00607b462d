-- ===== src/Consumer/CallsLaws.antt =====
-- What librdkafka is asked by the calls of a consumer.
use rust_rdkafka.Prelude.{
  ℕ, ◌≡◌, refl, ◌∙◌, ℤ, pos, negsuc, String, false, some, List, [], ◌∷◌, ◌++◌, map, arith,
  codes_contain, All,
}
use mathlib.Core.List.{append_assoc, append-nil}
use rust_rdkafka.Codes.RespErr.{RespErr}
use rust_rdkafka.Error.Defs.{is_error}
use rust_rdkafka.TopicPartitionList.Offset.{offset, to_raw}
use rust_rdkafka.TopicPartitionList.Elem.{Elem}
use rust_rdkafka.TopicPartitionList.Native.{Tpl, Native, fresh}
use rust_rdkafka.TopicPartitionList.Tpl.{expect_c_string, add_partition, add_topic_unassigned}
use rust_rdkafka.TopicPartitionList.Update.{set_all_offsets_lem}
use rust_rdkafka.Consumer.Calls.{
  assignment, offsets_for_times, offsets_for_timestamp, subscribe_list,
}

abbrev pub all_at : ℤ → Tpl → Tpl
all_at raw t = record t { elems = map (λ (e : Elem). record e { raw_offset = raw }) t.elems }

-- When librdkafka gives the assignment, it is asked for the times of a list that has the timestamp,
-- if it is not negative, as the offset of every partition of the assignment and nothing else changed.
pub offsets_for_timestamp_asks :
    (native_times : Tpl → Tpl × RespErr) (tpl : Tpl) (ms : ℕ)
    → offsets_for_timestamp native_times RespErr.no_error tpl (pos ms)
      ≡ offsets_for_times native_times (all_at (pos ms) tpl)
unfolding offsets_for_timestamp assignment is_error to_raw
offsets_for_timestamp_asks native_times tpl ms =
    let set = set_all_offsets_lem tpl (offset (pos ms)) in ground arith

module _ (err2str : RespErr → String) (native : Native) where
  one_more :
      (t : Tpl) (topic : String) (topics : List String)
      → codes_contain 0 topic ≡ false
      → subscribe_list err2str native t (topic ∷ topics)
        ≡ subscribe_list err2str native (native.list_add t topic (negsuc 0)) topics
  unfolding subscribe_list add_topic_unassigned add_partition expect_c_string
  one_more t topic topics h = ground arith

  -- A subscription to topics with no zero byte asks for all of them in order, with no partition.
  pub subscribe_list_lem :
      (t : Tpl) (topics : List String)
      → All (λ topic. codes_contain 0 topic ≡ false) topics
      → (t' : Tpl) × (subscribe_list err2str native t topics ≡ some t')
        × (t'.elems ≡ t.elems ++ map (λ topic. fresh topic (negsuc 0)) topics)
  unfolding subscribe_list add_topic_unassigned add_partition expect_c_string
  subscribe_list_lem t [] h = (t, refl, ground (arith, append-nil t.elems))
  subscribe_list_lem t (topic ∷ topics) h =
      let ih = subscribe_list_lem (native.list_add t topic (negsuc 0)) topics h.1 in
      (
        ih.0,
        one_more t topic topics h.0 ∙ ih.1,
        ih.2 ∙ rw (native.add_appends t topic (negsuc 0)) (simp append_assoc),
      )
