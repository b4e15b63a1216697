-- ===== src/Dom.antt =====
-- src/dom.c: events stored in a chain of memory blocks, and replayed from it.
pub mod Stored
pub mod Replays
pub mod Pulls
use jsnpg.Base.{
  ℕ, zero, suc, ◌+◌, ◌-◌, ◌*◌, ◌/◌, ◌%◌, ◌^◌, List, [], ◌∷◌, ◌++◌, Bool, true, false, not, Option,
  none, some, ◌==◌, leb, ltb, if◌then◌else◌, length,
}
use jsnpg.Base.Did.{Did, did, failed}
use jsnpg.Base.Int.{ℤ}
use jsnpg.Types.{
  JsonType, type_null, type_false, type_true, type_integer, type_real, type_string, type_key,
  type_start_array, type_end_array, type_start_object, type_end_object, type_eof, ErrorCode, Event,
  Payload, ParseResult,
}
use jsnpg.Errors.{make_pg_error_return}

-- sizeof(dom_node)
abbrev pub node_size : ℕ
node_size = 8

-- sizeof(dom): three pointers and two sizes
abbrev pub dom_size : ℕ
dom_size = 40

abbrev pub dom_min_size : ℕ
dom_min_size = 8192

-- What a node holds. The bytes of a string are one cell, at the offset of the first. `unset` is
-- memory that has not been written.
pub data Node (R : Type 0) : Type 0 where
  unset : Node R
  type : JsonType → Node R
  count : ℕ → Node R
  real : R → Node R
  integer : ℤ → Node R
  bytes : List ℕ → Node R

-- a block behind its header, by the offset from the header
pub record Block (R : Type 0) : Type 0 where
  pub size : ℕ
  pub count : ℕ
  pub nodes : ℕ → Node R

-- the chain from the root: the blocks in front of `current`, in order, and `current`, the last
pub record Dom (R : Type 0) : Type 0 where
  pub earlier : List (Block R)
  pub current : Block R

-- size_t arithmetic: at 0 the subtraction wraps, and so does the product
unfoldable pub dom_size_align : ℕ → ℕ
dom_size_align size = node_size * (1 + (size + 2 ^ 64 - 1) % 2 ^ 64 / node_size) % 2 ^ 64

unfoldable pub dom_alloc_size : ℕ → ℕ
dom_alloc_size size = dom_size_align (if ltb size dom_min_size then dom_min_size else size)

module _ {R : Type 0} where
  -- the header of a new block, where the allocator grants it
  unfoldable pub dom_hdr_new : (ℕ → Bool) → ℕ → Option (Block R)
  dom_hdr_new grants size =
      let total = dom_alloc_size (size + dom_size) in
      if grants total
      then some (record { size = total; count = dom_size; nodes = λ i. unset })
      else none

  unfoldable pub dom_new : (ℕ → Bool) → ℕ → Option (Dom R)
  dom_new grants size = elim (dom_hdr_new grants size) [
    | none ↦ none
    | some root ↦ some (record { earlier = []; current = root })
  ]

  -- The block that has room for a node with `count` bytes, which is then `current`.
  unfoldable pub dom_node_next : (ℕ → Bool) → Dom R → ℕ → Option (Dom R)
  dom_node_next grants root n =
      let required = dom_size_align (n + 2 * node_size) in
      let hdr = root.current in
      if ltb (hdr.size - hdr.count) required
      then elim (dom_hdr_new grants required) [
        | none ↦ none
        | some new ↦ some (record {
          earlier = root.earlier ++ hdr ∷ [];
          current = record new { count = new.count + required };
        })
      ]
      else some (record root { current = record hdr { count = hdr.count + required } })

  -- node[i] = x, from the offset of a node
  abbrev pub write_node : Block R → ℕ → Node R → Block R
  write_node b offset x = record b { nodes = λ i. if offset == i then x else b.nodes i }

  -- The type and the count are written at the offset that the block's count had, and a third node
  -- behind them.
  unfoldable pub dom_add : (ℕ → Bool) → Dom R → JsonType → ℕ → Option (Node R) → Did (Dom R)
  dom_add grants root t n value = elim (dom_node_next grants root n) [
    | none ↦ failed root
    | some next ↦
        let offset = next.current.count - dom_size_align (n + 2 * node_size) in
        let named =
          write_node (write_node next.current offset (type t)) (offset + node_size) (count n) in
        let third = offset + 2 * node_size in
        let filled : Block R = elim value [ none ↦ named | some x ↦ write_node named third x ] in
        did (record next { current = filled })
  ]

  -- what memcpy writes of a string: nothing where it is empty
  abbrev pub cell_of : List ℕ → Option (Node R)
  cell_of [] = none
  cell_of (b ∷ bs) = some (bytes (b ∷ bs))

  -- dom_add_type, dom_add_integer, dom_add_real, dom_add_bytes and the callbacks that use them
  unfoldable pub dom_event : (ℕ → Bool) → Event R → Dom R → Did (Dom R)
  dom_event grants Event.null root = dom_add grants root type_null 0 none
  dom_event grants (Event.boolean is_true) root =
      dom_add grants root (if is_true then type_true else type_false) 0 none
  dom_event grants (Event.integer i) root =
      dom_add grants root type_integer node_size (some (integer i))
  dom_event grants (Event.real d) root = dom_add grants root type_real node_size (some (real d))
  dom_event grants (Event.string bs) root = dom_add grants root type_string (length bs) (cell_of bs)
  dom_event grants (Event.key bs) root = dom_add grants root type_key (length bs) (cell_of bs)
  dom_event grants Event.start_array root = dom_add grants root type_start_array 0 none
  dom_event grants Event.end_array root = dom_add grants root type_end_array 0 none
  dom_event grants Event.start_object root = dom_add grants root type_start_object 0 none
  dom_event grants Event.end_object root = dom_add grants root type_end_object 0 none

  -- the event at an offset and the offset behind it; `none` where the memory holds none
  unfoldable pub read_value : JsonType → ℕ → Node R → ℕ → Option (Event R × ℕ)
  read_value type_string zero x offset = some (Event.string [], offset + dom_size_align 0)
  read_value type_string (suc n) (bytes bs) offset =
      some (Event.string bs, offset + dom_size_align (suc n))
  read_value type_key zero x offset = some (Event.key [], offset + dom_size_align 0)
  read_value type_key (suc n) (bytes bs) offset =
      some (Event.key bs, offset + dom_size_align (suc n))
  read_value type_integer n (integer i) offset = some (Event.integer i, offset + node_size)
  read_value type_real n (real d) offset = some (Event.real d, offset + node_size)
  read_value type_true n x offset = some (Event.boolean true, offset)
  read_value type_false n x offset = some (Event.boolean false, offset)
  read_value type_null n x offset = some (Event.null, offset)
  read_value type_start_object n x offset = some (Event.start_object, offset)
  read_value type_end_object n x offset = some (Event.end_object, offset)
  read_value type_start_array n x offset = some (Event.start_array, offset)
  read_value type_end_array n x offset = some (Event.end_array, offset)
  read_value t n x offset = none

  abbrev read_typed : Node R → Node R → Node R → ℕ → Option (Event R × ℕ)
  read_typed (type t) (count n) x offset = read_value t n x offset
  read_typed a b x offset = none

  unfoldable pub read_event : Block R → ℕ → Option (Event R × ℕ)
  read_event b offset =
      read_typed (b.nodes offset) (b.nodes (offset + node_size)) (b.nodes (offset + 2 * node_size))
        (offset + 2 * node_size)

  -- the blocks of the chain, in order
  abbrev pub chain : Dom R → List (Block R)
  chain d = d.earlier ++ d.current ∷ []

-- How a replay ends: the events have all been sent, one of them was refused, memory was read that
-- holds no event, or the generator's assertion failed.
pub data Replay (G : Type 0) : Type 0 where
  replayed : G → Replay G
  refused : G → Replay G
  fault : Replay G
  aborted : Replay G
  no_fuel : Replay G

-- The loop of dom_parse over the events, with what is left of the chain. An event whose memory was
-- not written is a fault. The fuel is the number of events and one more.
module _ {R G : Type 0} (send : Event R → G → Option (Bool × G)) where
  unfoldable pub replay : ℕ → List (Block R) → ℕ → G → Replay G
  replay zero hdrs offset g = no_fuel
  replay (suc fuel) [] offset g = replayed g
  replay (suc fuel) (hdr ∷ next) offset g = elim (read_event hdr offset) [
    | none ↦ fault
    | some (e, offset') ↦ elim (send e g) [
      | none ↦ aborted
      | some (flag, g') ↦
          let more = replay fuel (hdr ∷ next) offset' g' in
          let following = replay fuel next dom_size g' in
          if not flag then refused g' else if leb hdr.count offset' then following else more
    ]
  ]

  -- dom_parse: `p_result` is the result that the parser holds, and `error_of` reads the
  -- generator's error; `none` where the replay has no result
  unfoldable pub dom_parse :
      (G → ErrorCode) → ParseResult R → ℕ → List (Block R) → G → Option (ParseResult R × G)
  dom_parse error_of p_result fuel hdrs g = elim (replay fuel hdrs dom_size g) [
    | replayed g' ↦
        some (record { type = type_eof; position = 0; payload = Payload.no_payload }, g')
    | refused g' ↦ some (make_pg_error_return p_result (error_of g'), g')
    | _ ↦ none
  ]

-- what a pull parser over a DOM keeps: the chain from its block on, the offset, and its result
pub record DomInfo (R : Type 0) : Type 0 where
  pub hdrs : List (Block R)
  pub offset : ℕ
  pub type : JsonType
  pub payload : Payload R

-- what an event leaves in the result
unfoldable pub payload_of : {R : Type 0} → Event R → Payload R → Payload R
payload_of (Event.integer i) old = Payload.integer i
payload_of (Event.real d) old = Payload.real d
payload_of (Event.string bs) old = Payload.bytes bs
payload_of (Event.key bs) old = Payload.bytes bs
payload_of _ old = old

unfoldable pub type_of : {R : Type 0} → Event R → JsonType
type_of Event.null = type_null
type_of (Event.boolean is_true) = if is_true then type_true else type_false
type_of (Event.integer i) = type_integer
type_of (Event.real d) = type_real
type_of (Event.string bs) = type_string
type_of (Event.key bs) = type_key
type_of Event.start_array = type_start_array
type_of Event.end_array = type_end_array
type_of Event.start_object = type_start_object
type_of Event.end_object = type_end_object

module _ {R : Type 0} where
  -- the read of one event by dom_parse_next, in the block that it is up to
  unfoldable pub take_event : Block R → List (Block R) → ℕ → DomInfo R → Option (DomInfo R)
  take_event hdr next offset p = elim (read_event hdr offset) [
    | none ↦ none
    | some (e, offset') ↦ some (record {
      hdrs = hdr ∷ next;
      offset = offset';
      type = type_of e;
      payload = payload_of e p.payload;
    })
  ]

  -- dom_parse_next, on a chain that has a block; `none` where memory is read that holds no event
  unfoldable pub dom_parse_next : DomInfo R → Option (DomInfo R)
  dom_parse_next p = elim (p.hdrs) [
    | [] ↦ none
    | hdr ∷ next ↦
        if leb hdr.count p.offset
        then elim next [
          | [] ↦ some (record p { type = type_eof })
          | following ∷ rest ↦ take_event following rest dom_size p
        ]
        else take_event hdr next p.offset p
  ]
