-- ===== src/Checkpointer/Keys.antt =====
-- The keys of the tables of `InMemorySaver` (libs/checkpoint/langgraph/checkpoint/memory/__init__.py)
-- and `WRITES_IDX_MAP` of libs/checkpoint/langgraph/checkpoint/base/__init__.py.
use langgraph_study.Prelude.{
  ℕ, String, ◌≡◌, ◌↔◌, Bool, true, false, ◌&&◌, nat_eq, str_eq, eq_iff, if◌then◌else◌, arith,
}
use langgraph_study.Table.{Eq}

-- (thread ID, checkpoint NS, channel, version)
pub record BlobKey : Type 0 where
  pub thread_id : String
  pub checkpoint_ns : String
  pub channel : String
  pub version : ℕ

abbrev pub blob_key_eq : BlobKey → BlobKey → Bool
blob_key_eq a b =
    str_eq a.thread_id b.thread_id
    && str_eq a.checkpoint_ns b.checkpoint_ns
    && str_eq a.channel b.channel
    && nat_eq a.version b.version

pub blob_key_eq_iff : (a b : BlobKey) → (blob_key_eq a b ≡ true) ↔ (a ≡ b)
blob_key_eq_iff a b = ground (
  arith,
  eq_iff a.thread_id b.thread_id,
  eq_iff a.checkpoint_ns b.checkpoint_ns,
  eq_iff a.channel b.channel,
)

instance abbrev pub blob_key : Eq BlobKey
blob_key = record { beq = blob_key_eq; beq_iff = blob_key_eq_iff }

-- (thread ID, checkpoint NS, checkpoint ID)
pub record WritesKey : Type 0 where
  pub thread_id : String
  pub checkpoint_ns : String
  pub checkpoint_id : String

abbrev pub writes_key_eq : WritesKey → WritesKey → Bool
writes_key_eq a b =
    str_eq a.thread_id b.thread_id
    && str_eq a.checkpoint_ns b.checkpoint_ns
    && str_eq a.checkpoint_id b.checkpoint_id

pub writes_key_eq_iff : (a b : WritesKey) → (writes_key_eq a b ≡ true) ↔ (a ≡ b)
writes_key_eq_iff a b = ground (
  arith,
  eq_iff a.thread_id b.thread_id,
  eq_iff a.checkpoint_ns b.checkpoint_ns,
  eq_iff a.checkpoint_id b.checkpoint_id,
)

instance abbrev pub writes_key : Eq WritesKey
writes_key = record { beq = writes_key_eq; beq_iff = writes_key_eq_iff }

-- The index of a write: its place, or the negative number, `below n` for -(n + 1), of its channel.
pub data Index : Type 0 where
  place : ℕ → Index
  below : ℕ → Index

-- (task ID, write idx)
pub record InnerKey : Type 0 where
  pub task_id : String
  pub index : Index

abbrev pub index_eq : Index → Index → Bool
index_eq (place m) (place n) = nat_eq m n
index_eq (place m) (below n) = false
index_eq (below m) (place n) = false
index_eq (below m) (below n) = nat_eq m n

index_eq_iff : (a b : Index) → (index_eq a b ≡ true) ↔ (a ≡ b)
index_eq_iff (place m) (place n) = ground arith
index_eq_iff (place m) (below n) = ground arith
index_eq_iff (below m) (place n) = ground arith
index_eq_iff (below m) (below n) = ground arith

abbrev pub inner_key_eq : InnerKey → InnerKey → Bool
inner_key_eq a b = str_eq a.task_id b.task_id && index_eq a.index b.index

pub inner_key_eq_iff : (a b : InnerKey) → (inner_key_eq a b ≡ true) ↔ (a ≡ b)
inner_key_eq_iff a b = ground (arith, eq_iff a.task_id b.task_id, index_eq_iff a.index b.index)

instance abbrev pub inner_key : Eq InnerKey
inner_key = record { beq = inner_key_eq; beq_iff = inner_key_eq_iff }

-- `WRITES_IDX_MAP.get(c, idx)`
unfoldable pub write_index : String → ℕ → Index
write_index c idx =
    if str_eq c "__error__"
    then below 0
    else if str_eq c "__scheduled__"
    then below 1
    else if str_eq c "__interrupt__"
    then below 2
    else if str_eq c "__resume__"
    then below 3
    else place idx
