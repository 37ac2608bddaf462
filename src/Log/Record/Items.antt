-- ===== src/Log/Record/Items.antt =====
-- A record as the list of its actions, in the order in which `flush_to_file` writes them.
use mathlib.Core.List.{append_assoc}
use blockchain_parity_db.Prelude.{ℕ, ◌^◌, ◌<◌, ◌≡◌, refl, ap, ◌∙◌, sym, List, [], ◌∷◌, ◌++◌}
use blockchain_parity_db.Bytes.{Bytes, to_le}
use blockchain_parity_db.HashMap.{HashMap}
use blockchain_parity_db.Index.TableId.{TableId}
use blockchain_parity_db.Log.Overlay.{
  IndexChange, ValueChange, IndexLogOverlay, ValueLogOverlay, LogChange,
}
use blockchain_parity_db.Log.Reader.{end_record_tag}
use blockchain_parity_db.Log.Reader.Moved.{Pages}
use blockchain_parity_db.Log.Record.{
  index_payload, index_head, value_head, drop_head, begin_head, index_pages, value_pages,
  index_tables, value_tables, drops, record_body,
}

pub data Item : Type 0 where
  index_item : TableId → ℕ → IndexChange → Item
  value_item : TableId → ℕ → ValueChange → Item
  drop_item : TableId → Item

abbrev pub item_bytes : Item → Bytes
item_bytes (index_item table index c) = index_head table index ++ index_payload c
item_bytes (value_item table index v) = value_head table index ++ v.entry
item_bytes (drop_item table) = drop_head table

abbrev pub all_bytes : List Item → Bytes
all_bytes [] = []
all_bytes (x ∷ xs) = item_bytes x ++ all_bytes xs

-- Ids, places and masks fit the words that they are written in.
abbrev pub Fits : Item → Type 0
Fits (index_item table index c) = (table < 2 ^ 16) × (index < 2 ^ 64) × (c.modified_mask < 2 ^ 64)
Fits (value_item table index v) = (table < 2 ^ 16) × (index < 2 ^ 64)
Fits (drop_item table) = table < 2 ^ 16

-- The pages whose heads the reader notes
abbrev pub noted_index : List Item → Pages
noted_index [] = []
noted_index (index_item table index c ∷ xs) = (table, index) ∷ noted_index xs
noted_index (value_item table index v ∷ xs) = noted_index xs
noted_index (drop_item table ∷ xs) = noted_index xs

abbrev pub noted_values : List Item → Pages
noted_values [] = []
noted_values (index_item table index c ∷ xs) = noted_values xs
noted_values (value_item table index v ∷ xs) = (table, index) ∷ noted_values xs
noted_values (drop_item table ∷ xs) = noted_values xs

abbrev pub index_page_items : TableId → IndexLogOverlay → List Item
index_page_items table [] = []
index_page_items table ((index, c) ∷ m) = index_item table index c ∷ index_page_items table m

abbrev pub value_page_items : TableId → ValueLogOverlay → List Item
value_page_items table [] = []
value_page_items table ((index, v) ∷ m) = value_item table index v ∷ value_page_items table m

abbrev pub index_items : HashMap IndexLogOverlay → List Item
index_items [] = []
index_items ((table, m) ∷ ms) = index_page_items table m ++ index_items ms

abbrev pub value_items : HashMap ValueLogOverlay → List Item
value_items [] = []
value_items ((table, m) ∷ ms) = value_page_items table m ++ value_items ms

abbrev pub drop_items : List TableId → List Item
drop_items [] = []
drop_items (table ∷ ts) = drop_item table ∷ drop_items ts

abbrev pub items : LogChange → List Item
items log =
    index_items log.local_index ++ (value_items log.local_values ++ drop_items log.dropped_tables)

all_bytes-append : (xs ys : List Item) → all_bytes (xs ++ ys) ≡ all_bytes xs ++ all_bytes ys
all_bytes-append [] ys = refl
all_bytes-append (x ∷ xs) ys =
    ap (λ t. item_bytes x ++ t) (all_bytes-append xs ys)
    ∙ sym (append_assoc (item_bytes x) (all_bytes xs) (all_bytes ys))

index_pages-items :
    (table : TableId) (m : IndexLogOverlay)
    → index_pages table m ≡ all_bytes (index_page_items table m)
unfolding index_pages
index_pages-items table [] = refl
index_pages-items table ((index, c) ∷ m) =
    ap (λ t. index_head table index ++ (index_payload c ++ t)) (index_pages-items table m)
    ∙ sym (append_assoc (index_head table index) (index_payload c) _)

value_pages-items :
    (table : TableId) (m : ValueLogOverlay)
    → value_pages table m ≡ all_bytes (value_page_items table m)
unfolding value_pages
value_pages-items table [] = refl
value_pages-items table ((index, v) ∷ m) =
    ap (λ t. value_head table index ++ (v.entry ++ t)) (value_pages-items table m)
    ∙ sym (append_assoc (value_head table index) v.entry _)

index_tables-items : (ms : HashMap IndexLogOverlay) → index_tables ms ≡ all_bytes (index_items ms)
unfolding index_tables
index_tables-items [] = refl
index_tables-items ((table, m) ∷ ms) =
    rw (index_pages-items, index_tables-items ms, all_bytes-append)

value_tables-items : (ms : HashMap ValueLogOverlay) → value_tables ms ≡ all_bytes (value_items ms)
unfolding value_tables
value_tables-items [] = refl
value_tables-items ((table, m) ∷ ms) =
    rw (value_pages-items, value_tables-items ms, all_bytes-append)

drops-items : (ts : List TableId) → drops ts ≡ all_bytes (drop_items ts)
unfolding drops
drops-items [] = refl
drops-items (table ∷ ts) = ap (λ t. drop_head table ++ t) (drops-items ts)

-- What is written between the head and the end of a record is the bytes of its actions.
pub record_body-items :
    (log : LogChange)
    → record_body log
      ≡ begin_head log.record_id ++ (all_bytes (items log) ++ to_le 1 end_record_tag)
unfolding record_body
record_body-items log = rw (
  index_tables-items,
  value_tables-items,
  drops-items,
  all_bytes-append (index_items log.local_index),
  all_bytes-append (value_items log.local_values),
  append_assoc,
  append_assoc (all_bytes (value_items log.local_values)),
)
