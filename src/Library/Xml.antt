-- ===== src/Library/Xml.antt =====
-- `xml_components` of bridge_library.py. A document is what the XML parser makes of a chunk: the
-- header's attribute and the elements in document order. Finding a tag is the parser's `findall`.
use ros_bridge.Base.{
  String, ◌==◌, List, [], ◌∷◌, ◌++◌, Option, none, some, keep, map, M, ◌>>=◌, ◌>>◌, pure, raise,
  or_raise, attribute_error, key_error, value_error, unbound_local, is_empty, if◌then◌else◌,
}
use ros_bridge.Base.Dict.{Dict, keys}
use ros_bridge.Library.Goals.{Goals, set_goal}

-- `tag` is the tag without its namespace; `name` is the attribute, `text` the text if there is one.
pub record Element : Type 0 where
  pub tag : String
  pub name : Option String
  pub text : Option String

pub record Document : Type 0 where
  -- The header, if there is one, and its attribute `nextSequence`, if it has that.
  pub header : Option (Option String)
  pub elements : List Element

-- `none` is text that the parser refuses.
abbrev pub Chunk : Type 0
Chunk = Option Document

-- `root.findall('.//m:' + tag)`.
abbrev pub find_all : String → List Element → List Element
find_all tag = keep λ e. e.tag == tag

-- `header.attrib['nextSequence']`.
abbrev pub next_sequence : {S : Type 0} → Option (Option String) → M S String
next_sequence none = raise attribute_error
next_sequence (some none) = raise key_error
next_sequence (some (some s)) = pure s

-- The elements of the tags, a tag after the other.
unfoldable pub find_tags : List String → List Element → List Element
find_tags [] es = []
find_tags (tag ∷ tags) es = find_all tag es ++ find_tags tags es

-- `xml_components(xml, ns, tag_list)`.
unfoldable pub xml_components : {S : Type 0} → Chunk → List String → M S (String × List Element)
xml_components chunk tags = do
  doc ← or_raise chunk value_error
  seq ← next_sequence doc.header
  pure (seq, find_tags tags doc.elements)

module _ {F : Type 0} (parse_float : String → Option F) where
  -- `set_goal` for each tag and the tag of its goal, on the dictionary of goals.
  unfoldable pub set_goals : Dict String → List Element → M (Goals F) (Unit {0})
  set_goals [] es = pure tt
  set_goals ((tag, goal_tag) ∷ tags) es = do
    found ← set_goal parse_float tag (map (λ e. e.text) (find_all goal_tag es))
    set_goals tags es

  -- `xml_components(xml, ns, tag_list, get_goal = True, action_goals = action_goals)`: the goals are
  -- changed in place, and returned. With no tag `request_goal` is not bound.
  unfoldable pub xml_components_goals : Chunk → Dict String → M (Goals F) (String × List Element)
  xml_components_goals chunk tags = do
    doc ← or_raise chunk value_error
    seq ← next_sequence doc.header
    set_goals tags doc.elements
    if is_empty tags then raise unbound_local else pure (seq, find_tags (keys tags) doc.elements)
