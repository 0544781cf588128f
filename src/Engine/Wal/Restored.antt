-- ===== src/Engine/Wal/Restored.antt =====
-- A checkpoint is read back.
use srrdb.Prelude.{
  ℕ, suc, ◌+◌, ◌-◌, ◌/◌, ◌%◌, ◌^◌, ltb, ◌<◌, ◌≤◌, ◌≡◌, refl, sym, ap, ◌∙◌, false, none, some, List,
  [], ◌∷◌, ◌++◌, arith, if◌then◌else◌, length, take, is_empty, ◌==◌, nat_beq, nat_eq, nat_ord,
  list_eq, list_beq_iff, Bool-cases, inl, inr, drop_prefix, take_prefix, Ordering,
}
use srrdb.Std.Text.{Text, list_cmp}
use srrdb.Std.HashMap
use srrdb.Std.HashMap.{HashMap}
use srrdb.Std.BTreeMap
use srrdb.Std.Bytes.{u32_of, u32_read}
use srrdb.Std.Bincode.{Codec}
use srrdb.Std.Platform.{Platform}
use srrdb.Engine.Storage
use srrdb.Engine.Storage.{
  Row, Table, Storage, insert_rows, table_or_empty, normalize, next_id_or_one, insert_loop,
}
use srrdb.Engine.Storage.Stored.{IsWellFormed, table-insert_rows, insert_loop-rebuilt}
use srrdb.Engine.Sort.{sort_by, insert_by}
use srrdb.Engine.Wal.{Bytes, Bincode, Database, frame_bytes, entry_header_size}
use srrdb.Engine.Wal.Frames.{size_limit}
use srrdb.Engine.Wal.Checkpoint.{
  restored, table_bytes, build_checkpoint_data, read_with, read_tables, read_payload,
  replay_checkpoint,
}

-- how often a name stands in a list
unfoldable pub count : Text → List Text → ℕ
count k [] = 0
count k (name ∷ names) = let rest = count k names in if name == k then suc rest else rest

count-insert_by :
    (cmp : Text → Text → Ordering) (k x : Text) (xs : List Text)
    → count k (insert_by cmp x xs) ≡ count k (x ∷ xs)
unfolding count insert_by
count-insert_by cmp k x [] = refl
count-insert_by cmp k x (y ∷ ys) = ground (arith, count-insert_by cmp k x ys)

count-sort_by :
    (cmp : Text → Text → Ordering) (k : Text) (xs : List Text)
    → count k (sort_by cmp xs) ≡ count k xs
unfolding count sort_by
count-sort_by cmp k [] = refl
count-sort_by cmp k (x ∷ xs) =
    count-insert_by cmp k x (sort_by cmp xs)
    ∙ unfold count in ground (arith, count-sort_by cmp k xs)

get-count :
    (m : HashMap Text Table) (k : Text) → count k (HashMap.keys m) ≡ 0 → HashMap.get m k ≡ none
unfolding count HashMap.get HashMap.keys
get-count [] k h = refl
get-count ((j, t) ∷ m) k h = ground (arith, h, get-count m k)

module _ ⦃p : Platform⦄ where
  -- every name is normalized
  abbrev pub AreNormal : List Text → Type 0
  AreNormal [] = Unit
  AreNormal (name ∷ names) = (normalize name ≡ name) × AreNormal names

  insert_by-AreNormal :
      (cmp : Text → Text → Ordering) (x : Text) (xs : List Text)
      → normalize x ≡ x
      → AreNormal xs
      → AreNormal (insert_by cmp x xs)
  unfolding insert_by
  insert_by-AreNormal cmp x [] h a = (h, tt)
  insert_by-AreNormal cmp x (y ∷ ys) h a = ground (arith, insert_by-AreNormal cmp x ys h a.1, h, a)

  sort_by-AreNormal :
      (cmp : Text → Text → Ordering) (xs : List Text) → AreNormal xs → AreNormal (sort_by cmp xs)
  unfolding sort_by
  sort_by-AreNormal cmp [] a = tt
  sort_by-AreNormal cmp (x ∷ xs) a =
      insert_by-AreNormal cmp x (sort_by cmp xs) a.0 (sort_by-AreNormal cmp xs a.1)

  -- the rows of the named tables of `s`, inserted into `s'`
  abbrev put_tables : Storage → List Text → Storage → Storage
  put_tables s [] s' = s'
  put_tables s (name ∷ names) s' =
      put_tables s names (insert_rows s' name (BTreeMap.values (table_or_empty s name))).0

  put_tables-others :
      (s s' : Storage) (names : List Text) (k : Text)
      → AreNormal names
      → count k names ≡ 0
      → table_or_empty (put_tables s names s') k ≡ table_or_empty s' k
  unfolding count
  put_tables-others s s' [] k a h = refl
  put_tables-others s s' (name ∷ names) k a h =
      let rows = BTreeMap.values (table_or_empty s name) in
      put_tables-others s (insert_rows s' name rows).0 names k a.1 (ground (arith, h))
      ∙ ground (arith, table-insert_rows s' name k rows, h, a.0)

  put_tables-rows :
      (s s' : Storage) (names : List Text) (k : Text)
      → IsWellFormed s
      → AreNormal names
      → count k names ≡ 1
      → table_or_empty s' k ≡ []
      → table_or_empty (put_tables s names s') k ≡ table_or_empty s k
  unfolding count IsWellFormed
  put_tables-rows s s' [] k w a h e = absurd (omega (arith, h))
  put_tables-rows s s' (name ∷ names) k w a h e =
      let rows = BTreeMap.values (table_or_empty s name) in
      let s'' = (insert_rows s' name rows).0 in
      elim (Bool-cases (name == k)) [
        | inl q ↦
            let same = (list_beq_iff name k).0 q in
            let (positive, numbered, sorted) = w name in
            let n = next_id_or_one s' k in
            let inserted : table_or_empty s'' k ≡ (insert_loop rows (table_or_empty s' k) n).table =
              ground (arith, table-insert_rows s' name k rows, q, a.0) in
            put_tables-others s s'' names k a.1 (ground (arith, h, q))
            ∙ inserted
            ∙ ap (λ t. (insert_loop rows t n).table) e
            ∙ insert_loop-rebuilt [] (table_or_empty s name) _ n numbered sorted
            ∙ ap (λ x. table_or_empty s x) same
        | inr q ↦
            put_tables-rows s s'' names k w a.1 (ground (arith, h, q))
              (ground (arith, table-insert_rows s' name k rows, e, q, a.0))
      ]

-- what a codec writes is not empty: the length or the number comes first
abbrev pub WritesBytes : {A : Type 0} → Codec A → Type 0
WritesBytes {A} c = (a : A) (rest : Bytes) → is_empty (c.serialize a ++ rest) ≡ false

read_with-serialize :
    ⦃b : Bincode⦄ {A : Type 0} (c : Codec A) (a : A) (rest : Bytes)
    → read_with c (c.serialize a ++ rest) ≡ some (a, rest)
read_with-serialize c a rest =
    rw (c.read_back a rest, read_with) (rw (drop_prefix (c.serialize a) rest) refl)

module _ ⦃p : Platform⦄ ⦃b : Bincode⦄ where
  read_tables-table_bytes :
      (s s' : Storage) (names : List Text)
      → WritesBytes b.text
      → WritesBytes b.rows
      → read_tables (length names) (table_bytes s names) s' ≡ some (put_tables s names s')
  unfolding read_tables table_bytes
  read_tables-table_bytes s s' [] t r = refl
  read_tables-table_bytes s s' (name ∷ names) t r =
      let rows = BTreeMap.values (table_or_empty s name) in
      let more = b.rows.serialize rows ++ table_bytes s names in
      rw (t name more, read_tables)
        (rw (read_with-serialize b.text name more, table_bytes)
          (rw (r rows (table_bytes s names)) (
            rw (read_with-serialize b.rows rows (table_bytes s names))
              (read_tables-table_bytes s (insert_rows s' name rows).0 names t r))))

  -- the names in the order of the checkpoint
  abbrev table_names : Storage → List Text
  table_names s = sort_by list_cmp (HashMap.keys s.tables)

  read_payload-payload :
      (d : Database)
      → WritesBytes b.text
      → WritesBytes b.rows
      → WritesBytes b.count
      → read_payload (
          b.catalog.serialize d.catalog
          ++ (b.count.serialize (length (table_names d.storage))
              ++ table_bytes d.storage (table_names d.storage)))
        ≡ restored (record {
          catalog = d.catalog;
          storage = put_tables d.storage (table_names d.storage) Storage.new;
        })
  unfolding read_payload
  read_payload-payload d t r c =
      let names = table_names d.storage in
      let tables = table_bytes d.storage names in
      let more = b.count.serialize (length names) ++ tables in
      rw (read_with-serialize b.catalog d.catalog more, read_payload)
        (rw (c (length names) tables) (
          rw (read_with-serialize b.count (length names) tables)
            (rw (read_tables-table_bytes d.storage Storage.new names t r) refl)))

  replay_checkpoint-frame :
      (payload rest : Bytes)
      → entry_header_size + length payload < size_limit
      → replay_checkpoint (frame_bytes 255 payload ++ rest) ≡ read_payload payload
  unfolding replay_checkpoint
  replay_checkpoint-frame payload rest h =
      let n = entry_header_size + length payload in
      let len : u32_of (n % 2 ^ 32 % 256) (n % 2 ^ 32 / 256 % 256) (n % 2 ^ 32 / 65536 % 256)
            (n % 2 ^ 32 / 16777216 % 256)
          ≡ n =
        omega (arith, h, u32_read (n % 2 ^ 32) (omega arith)) in
      let short : ltb n entry_header_size ≡ false = ground arith in
      let size : n - entry_header_size ≡ length payload = omega arith in
      rw len (
        rw short (
          ap (λ k. read_payload (take k (payload ++ rest))) size
          ∙ ap read_payload (take_prefix payload rest)))

  -- each table's name is normalized and stands once
  abbrev pub HasNames : Storage → Type 0
  HasNames s =
      AreNormal (HashMap.keys s.tables) × ((k : Text) → count k (HashMap.keys s.tables) ≤ 1)

  put_tables-all :
      (s : Storage) (k : Text)
      → IsWellFormed s
      → HasNames s
      → table_or_empty (put_tables s (table_names s) Storage.new) k ≡ table_or_empty s k
  put_tables-all s k w (a, o) =
      let names = table_names s in
      let normal = sort_by-AreNormal list_cmp (HashMap.keys s.tables) a in
      let same = count-sort_by list_cmp k (HashMap.keys s.tables) in
      elim (Bool-cases (nat_beq (count k names) 0)) [
        | inl e ↦
            let absent : count k names ≡ 0 = ground (arith, e) in
            put_tables-others s Storage.new names k normal absent
            ∙ unfold HashMap.get in ground (arith, get-count s.tables k (sym same ∙ absent))
        | inr e ↦
            put_tables-rows s Storage.new names k w normal (ground (arith, e, same, o k))
              (unfold HashMap.get in refl)
      ]

  -- A checkpoint of a well formed state is read back without an error or a panic, with the same
  -- catalog and, in every table, the same rows, and whatever follows it in the file is not read:
  -- each table's name is normalized and stands once,
  -- the checkpoint is shorter than 2^32 bytes, and the bytes of a text, of rows and of a number are
  -- not empty.
  pub replay_checkpoint-build :
      (d : Database) (rest : Bytes)
      → IsWellFormed d.storage
      → HasNames d.storage
      → WritesBytes b.text
      → WritesBytes b.rows
      → WritesBytes b.count
      → length (build_checkpoint_data d) < size_limit
      → (s : Storage) × (replay_checkpoint (build_checkpoint_data d ++ rest)
          ≡ restored (record { catalog = d.catalog; storage = s }))
        × ((k : Text) → table_or_empty s k ≡ table_or_empty d.storage k)
  unfolding build_checkpoint_data
  replay_checkpoint-build d rest w names t r c h = (
    put_tables d.storage (table_names d.storage) Storage.new,
    replay_checkpoint-frame _ rest (omega (arith, h)) ∙ read_payload-payload d t r c,
    λ k. put_tables-all d.storage k w names,
  )
