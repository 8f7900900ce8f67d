-- ===== src/Publisher/Started.antt =====
-- What the constructor of `BridgePublisher` leaves.
use ros_bridge.Base.{
  ℤ, String, ◌==◌, ◌≡◌, refl, sym, ap, subst, ◌∙◌, Bool, true, false, List, [], ◌∷◌, Option, none,
  some, Outcome, ok, M, ◌>>=◌, ◌>>◌, pure, or_raise, modify_state, after, bind-holds, bind-returns,
  or_raise-Reads, key_error, index_error, type_error, Reads-returns,
}
use ros_bridge.Base.Dict.{Dict, lookup, keys, member}
use ros_bridge.Library.Tags.{split_event}
use ros_bridge.Library.Xml.{Element, Document, Chunk, find_tags, xml_components, next_sequence}
use ros_bridge.Library.Startup.{
  lacks_socket, Config, Agent, Progress, reaches, machine_tool, require, read_current, await_agent,
  xml_get_response, sample_path,
}
use ros_bridge.Library.Reaching.{Shows, read_current-Shows}
use ros_bridge.Library.Connects.{
  require-Reads, text_of-Reads, await_agent-Reads, read_current-Reads, xml_get_response-Reads,
  xml_components-Reads,
}
use ros_bridge.Publisher.Defs.{Publisher, Topic, all_none, all_items, init_di_dict}
use ros_bridge.Library.Packages.{Packages, Types}
use ros_bridge.Publisher.Startup.{
  msg_parameters, new_publisher, setup_topics, begin_current, take_value, first_value, first_values,
  init_current, take_page, go_ahead, start_publisher,
}
use ros_bridge.Publisher.Silent.{IsSilent, setup_topics-IsSilent}
use ros_bridge.Publisher.Checks.{init_current-first_values}
use ros_bridge.Publisher.Values.{last_text, init_current-values}

-- Only the current values differ.
abbrev Revalues : Publisher → Publisher → Type 0
Revalues p q = q ≡ record p { di_current = q.di_current }

take_value-Revalues :
    (d : String) (b : Bool) (text : Option String) (p q : Publisher)
    → Revalues p q
    → Revalues p (take_value d b text q)
take_value-Revalues d true text p q h = ap (take_value d true text) h
take_value-Revalues d false text p q h = h

first_value-Revalues :
    (d n : String) (es : List Element) (p q : Publisher)
    → Revalues p q
    → Revalues p (after (first_value d n es q))
unfolding first_value
first_value-Revalues d n [] p q h = h
first_value-Revalues d n (e ∷ es) p q h =
    bind-holds (Revalues p) (or_raise e.name key_error)
      (λ name. modify_state (take_value d (n == name) e.text) >> first_value d n es) q
      (subst (Revalues p) (sym (or_raise-Reads e.name key_error q)) h)
      λ name r k.
        first_value-Revalues d n es p (take_value d (n == name) e.text r)
          (take_value-Revalues d (n == name) e.text p r k)

first_values-Revalues :
    (ds : List String) (es : List Element) (p q : Publisher)
    → Revalues p q
    → Revalues p (after (first_values ds es q))
unfolding first_values
first_values-Revalues [] es p q h = h
first_values-Revalues (d ∷ ds) es p q h =
    bind-holds (Revalues p) (or_raise (split_event d) index_error)
      (λ n. first_value d n es >> first_values ds es) q
      (subst (Revalues p) (sym (or_raise-Reads (split_event d) index_error q)) h)
      λ n r k.
        bind-holds (Revalues p) (first_value d n es) (λ _. first_values ds es) r
          (first_value-Revalues d n es p r k) λ _ t. first_values-Revalues ds es p t

-- What a publisher has once it has started from a page: nothing to publish, a message for each
-- topic, and for each data item of a topic the text of the last element with its name, or None if
-- there is no such element. The elements are those that `xml_components` finds: those of one data
-- item's tag after those of another.
pub record IsLaunched (doc : Document) (p : Publisher) : Type 0 where
  pub silent : IsSilent p
  pub changed : p.di_changed ≡ none
  pub values :
      (d n : String)
      → member d (all_items p.topics) ≡ true
      → split_event d ≡ some n
      → lookup d p.di_current
        ≡ some (last_text n (find_tags (keys (init_di_dict p)) doc.elements) none)

begin_current-IsSilent : (p : Publisher) → IsSilent p → IsSilent (begin_current p)
begin_current-IsSilent p h = record {
  queue = h.queue;
  unfinished = h.unfinished;
  hold = h.hold;
  published = h.published;
  messages = h.messages;
}

revalued-IsSilent : (p q : Publisher) → Revalues p q → IsSilent p → IsSilent q
revalued-IsSilent p q r h = subst IsSilent (sym r) (record {
  queue = h.queue;
  unfinished = h.unfinished;
  hold = h.hold;
  published = h.published;
  messages = h.messages;
})

init_current-IsLaunched :
    (doc : Document) (p q : Publisher)
    → IsSilent p
    → init_current (find_tags (keys (init_di_dict p)) doc.elements) (begin_current p) ≡ ok tt q
    → IsLaunched doc q
unfolding init_di_dict
init_current-IsLaunched doc p q h e =
    let es = find_tags (keys (init_di_dict p)) doc.elements in
    let b = begin_current p in
    let runs : first_values (keys (init_di_dict p)) es b ≡ ok tt q =
      sym (init_current-first_values p es) ∙ e in
    let only : Revalues b q =
      subst (λ (o : Outcome Publisher (Unit {0})). Revalues b (after o)) runs
        (first_values-Revalues (keys (init_di_dict p)) es b b refl) in
    let topics : q.topics ≡ p.topics = cc (only) in
    record {
      silent = revalued-IsSilent b q only (begin_current-IsSilent p h);
      changed = cc (only);
      values = λ d n i s.
          subst
            (λ (ts : List Topic).
              lookup d q.di_current
              ≡ some (last_text n (find_tags (keys (all_none (all_items ts))) doc.elements) none))
            (sym topics) (init_current-values p q es d n (cc (i, topics)) s e);
    }

next_sequence-found :
    {S : Type 0} (h : Option (Option String)) (es : List Element) (s t : S)
    (found : String × List Element)
    → (next_sequence h >>= λ seq. pure (seq, es)) s ≡ ok found t
    → found.1 ≡ es
next_sequence-found none es s t found e = absurd (cc (e))
next_sequence-found (some none) es s t found e = absurd (cc (e))
next_sequence-found (some (some seq)) es s t found e = cc (e)

xml_components-found :
    {S : Type 0} (chunk : Chunk) (tags : List String) (s t : S) (found : String × List Element)
    → xml_components chunk tags s ≡ ok found t
    → (doc : Document) × (chunk ≡ some doc) × (found.1 ≡ find_tags tags doc.elements)
unfolding xml_components
xml_components-found none tags s t found e = absurd (cc (e))
xml_components-found (some doc) tags s t found e =
    (doc, refl, next_sequence-found doc.header (find_tags tags doc.elements) s t found e)

module _ {A : Type 0} (agent : Agent A) (mtool : String) where
  take_page-IsLaunched :
      (chunk : Option Chunk) (p q : Publisher) (x : A)
      → IsSilent p
      → take_page agent mtool chunk (begin_current p) ≡ ok (reaches x) q
      → (doc : Document) × (chunk ≡ some (some doc)) × IsLaunched doc q
  unfolding take_page
  take_page-IsLaunched none p q x h e = absurd (cc (e))
  take_page-IsLaunched (some chunk) p q x h e =
      let b = begin_current p in
      let tags = keys (init_di_dict p) in
      let rest : String → M Publisher (Progress A) = λ seq.
        xml_get_response (agent.sample (sample_path mtool seq)) >>= λ stream.
        pure (reaches stream) in
      let (found, p1, a1, e1) =
        bind-returns (xml_components chunk tags) (λ found. init_current found.1 >> rest found.0) b q
          (reaches x) e in
      let (_, p2, a2, e2) =
        bind-returns (init_current found.1) (λ _. rest found.0) p1 q (reaches x) e1 in
      let (stream, p3, a3, e3) =
        bind-returns (xml_get_response (agent.sample (sample_path mtool found.0)))
          (λ stream. pure (reaches stream)) p2 q (reaches x) e2 in
      let read =
        Reads-returns (xml_get_response (agent.sample (sample_path mtool found.0))) p2 p3 stream
          (xml_get_response-Reads (agent.sample (sample_path mtool found.0))) a3 in
      let same =
        Reads-returns (xml_components chunk tags) b p1 found (xml_components-Reads chunk tags) a1 in
      let (doc, there, elements) = xml_components-found chunk tags b p1 found a1 in
      (doc, ap some there, init_current-IsLaunched doc p q h (cc (a2, elements, same, read, e3)))

module _ {A : Type 0} (packages : Packages (Dict ℤ)) (agent : Agent A) where
  go_ahead-IsLaunched :
      (config : Config Types) (there : Bool) (x : A) (p q : Publisher)
      → IsSilent p
      → go_ahead packages agent config there p ≡ ok (reaches x) q
      → (doc : Document) × Shows lacks_socket agent.current (some doc) × IsLaunched doc q
  unfolding go_ahead
  go_ahead-IsLaunched config false x p q h e = absurd (cc (e))
  go_ahead-IsLaunched config true x p q h e =
      let last : String → M Publisher (Progress A) =
        λ mtool. read_current lacks_socket agent.current >>= take_page agent mtool in
      let (_, p1, a1, e1) =
        bind-returns (setup_topics packages config [])
          (λ _. modify_state begin_current >> (machine_tool config >>= last)) p q (reaches x) e in
      let (mtool, p2, a2, e2) =
        bind-returns (machine_tool config) last (begin_current p1) q (reaches x) e1 in
      let (page, p3, a3, e3) =
        bind-returns (read_current lacks_socket agent.current) (take_page agent mtool) p2 q
          (reaches x) e2 in
      let same =
        Reads-returns (read_current lacks_socket agent.current) p2 p3 page
          (read_current-Reads lacks_socket agent.current) a3
        ∙ Reads-returns (machine_tool config) (begin_current p1) p2 mtool
            (text_of-Reads (lookup "machine_tool" config)) a2 in
      let silent =
        subst (λ (o : Outcome Publisher (Unit {0})). IsSilent (after o)) a1
          (setup_topics-IsSilent packages config [] p h) in
      let (doc, shown, l) =
        take_page-IsLaunched agent mtool page p1 q x silent
          (subst (λ u. take_page agent mtool page u ≡ ok (reaches x) q) same e3) in
      (doc, read_current-Shows lacks_socket agent.current (some doc) p2 p3 (cc (a3, shown)), l)

  -- A start of the publisher that reaches the stream has read a page, the first reply of the agent,
  -- and leaves for each data item of a topic the text of the last element with its name among those
  -- that `xml_components` finds on that page, a tag after the other, or None if there is no such
  -- element, a message for each topic, and nothing queued, held or published.
  pub start_publisher-IsLaunched :
      (data_map : Option (Config Types)) (x : A) (q : Publisher)
      → start_publisher packages agent data_map new_publisher ≡ ok (reaches x) q
      → (doc : Document) × Shows lacks_socket agent.current (some doc) × IsLaunched doc q
  unfolding start_publisher
  start_publisher-IsLaunched data_map x q e =
      let go : Config Types → Bool → M Publisher (Progress A) = go_ahead packages agent in
      let (config, p1, a1, e1) =
        bind-returns (or_raise data_map type_error)
          (λ config. require msg_parameters config >> (await_agent agent >>= go config))
          new_publisher q (reaches x) e in
      let (_, p2, a2, e2) =
        bind-returns (require msg_parameters config) (λ _. await_agent agent >>= go config) p1 q
          (reaches x) e1 in
      let (there, p3, a3, e3) = bind-returns (await_agent agent) (go config) p2 q (reaches x) e2 in
      let same =
        Reads-returns (await_agent agent) p2 p3 there (await_agent-Reads agent) a3
        ∙ (Reads-returns (require msg_parameters config) p1 p2 tt
              (require-Reads msg_parameters config) a2
            ∙ Reads-returns (or_raise data_map type_error) new_publisher p1 config
                (or_raise-Reads data_map type_error) a1) in
      let new : IsSilent new_publisher = record {
        queue = refl;
        unfinished = refl;
        hold = refl;
        published = refl;
        messages = tt;
      } in
      go_ahead-IsLaunched config there x p3 q (subst IsSilent (sym same) new) e3
