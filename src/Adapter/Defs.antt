-- ===== src/Adapter/Defs.antt =====
-- `Adapter` of mtconnect_adapter.py: its state and its methods.
use ros_bridge.Base.{
  ℕ, String, ◌==◌, Bool, true, false, not, ◌||◌, List, [], ◌∷◌, ◌++◌, map, if◌then◌else◌, Option,
  none, some, keep, M, err, ◌>>=◌, ◌>>◌, pure, or_raise, modify_state, type_error,
}
use ros_bridge.Base.Dict.{Dict, lookup, insert, remove, keys, contains}
use ros_bridge.DataItem.Values.{Number, ◌+++◌}
use ros_bridge.DataItem.{Item, base, begin, complete, sweep_item, unavailable_item, item_values}

-- The sockets of the operating system. `none` means that the call raises.
pub record Sockets (S : Type 0) : Type 0 where
  pub transmit : S → String → Option S
  pub shutdown : S → Option S

pub record Adapter (N S : Type 0) : Type 0 where
  pub clients : Dict S
  pub data_items : List (Item N)
  pub running : Bool
  pub heartbeat_interval : ℕ
  pub sent : List (String × String)

-- `__init__`, after the TCP server's own.
unfoldable pub new_adapter : {N S : Type 0} → ℕ → Adapter N S
new_adapter interval = record {
  clients = [];
  data_items = [];
  running = false;
  heartbeat_interval = interval;
  sent = [];
}

module _ {N S : Type 0} where
  unfoldable pub add_data_item : Item N → Adapter N S → Adapter N S
  add_data_item i a = record a { data_items = a.data_items ++ i ∷ [] }

  unfoldable pub begin_all : Adapter N S → Adapter N S
  begin_all a = record a { data_items = map begin a.data_items }

  unfoldable pub complete_all : Adapter N S → Adapter N S
  complete_all a = record a { data_items = map complete a.data_items }

  unfoldable pub sweep_all : Adapter N S → Adapter N S
  sweep_all a = record a { data_items = map sweep_item a.data_items }

  unfoldable pub unavailable_all : Adapter N S → Adapter N S
  unavailable_all a = record a { data_items = map unavailable_item a.data_items }

abbrev pub format_line : String → String → String
format_line time text = time +++ text +++ "\n"

module _ {N S : Type 0} ⦃k : Sockets S⦄ where
  -- A socket that is removed is shut down too; whether that raises makes no difference.
  unfoldable pub remove_client : String → Adapter N S → Adapter N S
  remove_client client a =
      if contains client a.clients then record a { clients = remove client a.clients } else a

  -- An unknown client raises KeyError, and a dead socket an error of its own: both are caught.
  unfoldable pub send_to_client : String → String → Adapter N S → Adapter N S
  send_to_client line client a = elim (lookup client a.clients) [
    | none ↦ remove_client client a
    | some socket ↦ elim (k.transmit socket line) [
      | none ↦ remove_client client a
      | some socket' ↦ record a {
        clients = insert client socket' a.clients;
        sent = a.sent ++ (client, line) ∷ [];
      }
    ]
  ]

  unfoldable pub send_each : String → List String → Adapter N S → Adapter N S
  send_each line [] a = a
  send_each line (client ∷ clients) a = send_each line clients (send_to_client line client a)

  unfoldable pub send : String → String → List String → Adapter N S → Adapter N S
  send time text clients a = send_each (format_line time text) clients a

  unfoldable pub send_lines : String → List String → List String → Adapter N S → Adapter N S
  send_lines time [] clients a = a
  send_lines time (line ∷ lines) clients a =
      send_lines time lines clients (send time line clients a)

abbrev pub concat : List String → String
concat [] = ""
concat (s ∷ r) = s +++ concat r

unfoldable pub is_separate : {N : Type 0} → Item N → Bool
is_separate i = (base i).separate_line

module _ {N : Type 0} ⦃n : Number N⦄ where
  unfoldable pub is_due : Bool → Item N → Bool
  is_due force i = force || (base i).changed

  -- The text of the items that share a line; none stands for a TypeError.
  unfoldable pub combined_text : Bool → String → List (Item N) → Option String
  combined_text force text [] = some text
  combined_text force text (i ∷ is) =
      let more : Option String = elim (item_values i force) [
        | none ↦ none
        | some lines ↦ combined_text force (text +++ concat lines) is
      ] in
      let skip = combined_text force text is in if is_due force i then more else skip

module _ {N S : Type 0} ⦃n : Number N⦄ ⦃k : Sockets S⦄ where
  unfoldable pub send_separate :
      String → Bool → List String → List (Item N) → M (Adapter N S) (Unit {0})
  send_separate time force clients [] = pure tt
  send_separate time force clients (i ∷ is) =
      let due = (do
        lines ← or_raise (item_values i force) type_error
        modify_state (send_lines time lines clients)
        send_separate time force clients is) in
      let skip = send_separate time force clients is in if is_due force i then due else skip

  -- `time` is the answer of `format_time`.
  unfoldable pub send_changed : String → List String → Bool → M (Adapter N S) (Unit {0})
  send_changed time clients force a =
      let separate = keep is_separate a.data_items in
      let combined = keep (λ i. not (is_separate i)) a.data_items in
      elim (combined_text force "" combined) [
        | none ↦ err type_error a
        | some text ↦
            send_separate time force clients separate
              (if text == "" then a else send time text clients a)
      ]

  unfoldable pub send_initial : String → String → M (Adapter N S) (Unit {0})
  send_initial time client = send_changed time (client ∷ []) true

  unfoldable pub begin_gather : M (Adapter N S) (Unit {0})
  begin_gather = modify_state begin_all

  unfoldable pub complete_gather : String → M (Adapter N S) (Unit {0})
  complete_gather time a =
      let b = complete_all a in
      (send_changed time (keys b.clients) false >> modify_state sweep_all) b

  -- `gather(function)`.
  unfoldable pub gather : String → M (Adapter N S) (Unit {0}) → M (Adapter N S) (Unit {0})
  unfolding begin_gather complete_gather
  gather time function = do begin_gather; function; complete_gather time
