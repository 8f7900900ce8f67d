-- ===== src/Tests/Turtles.antt =====
-- Examples for the turtle bridge.
use ros_bridge.Base.{ℕ, Bool, true, false, ◌==◌, ◌≡◌, ◌++◌, refl, List, [], ◌∷◌, ok, if◌then◌else◌}
use ros_bridge.Base.Dict.{contains}
use ros_bridge.DataItem.Values.{tuple, value_eq}
use ros_bridge.DataItem.Plain.{DataItem, new_data_item, set_value}
use ros_bridge.DataItem.Values.{text as text_value}
use ros_bridge.Adapter.Defs.{Adapter, new_adapter, add_data_item, format_line}
use ros_bridge.Library.Effects.{told_line}
use ros_bridge.Library.Events.{assign}
use ros_bridge.Library.Xml.{Element}
use ros_bridge.DataItem.{event, three_d, set_item}
use ros_bridge.Turtle.Defs.{new_bridge, handle_turtle_pose, serve_chunks, Velocity}
use ros_bridge.Turtle.Poses.{turtle, line, posed, handle_turtle_pose-told}
use ros_bridge.Turtle.Moves.{Told, chunks_of, all_elements, serve_chunks-Told}
use ros_bridge.Tests.Data.{nat_number, flag_sockets, element, document}

abbrev pose : DataItem ℕ
pose = new_data_item "pose"

abbrev avail : DataItem ℕ
avail = set_value (new_data_item "avail") (text_value "AVAILABLE")

abbrev adapter : Adapter ℕ Bool
adapter = record (new_adapter 10000) { clients = ("a", true) ∷ [] }

-- The constructor's adapter has these two objects.
new_bridge_test : new_bridge 10000 ≡ turtle pose avail (new_adapter {N = ℕ} {S = Bool} 10000)
unfolding new_bridge add_data_item assign set_item new_adapter
new_bridge_test = refl

-- The first pose comes with the availability.
handle_turtle_pose-told_example :
    let told = line pose avail (5 ∷ 6 ∷ 0 ∷ []) in
    (b : Adapter ℕ Bool) × (handle_turtle_pose 0 "t" 5 6 (turtle pose avail adapter) ≡ ok tt b)
    × (b.data_items
        ≡ three_d (posed pose (tuple (5 ∷ 6 ∷ 0 ∷ [])))
          ∷ event (record avail { changed = false })
          ∷ [])
    × (b.sent
        ≡ adapter.sent
          ++ (if told == "" then [] else told_line (format_line "t" told) adapter.clients))
unfolding new_data_item set_value new_adapter value_eq contains
handle_turtle_pose-told_example =
    handle_turtle_pose-told 0 5 6 "t" pose avail adapter refl refl refl (refl, tt)

abbrev stops : List Element
stops = element "Execution" "execution" "READY" ∷ element "Mode" "mode" "AUTOMATIC" ∷ []

abbrev goes : List Element
goes = element "Execution" "execution" "ACTIVE" ∷ []

serve_chunks-Told_example :
    (vs : List Velocity) × (serve_chunks (chunks_of (document stops ∷ document goes ∷ [])) []
      ≡ ok tt ([] ++ vs))
    × Told (all_elements (document stops ∷ document goes ∷ [])) vs
serve_chunks-Told_example =
    serve_chunks-Told (document stops ∷ document goes ∷ []) [] (("7", refl), (("7", refl), tt))
