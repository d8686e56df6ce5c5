-- ===== src/Proto.antt =====
-- proto/annotation.proto: the messages that editors exchange. A string is the list of its bytes.
use ced.Base.{ℕ, List, Bool}
use ced.Ids.{Id64}

abbrev pub Bytes : Type 0
Bytes = List ℕ

-- `message Attribute`, with a constructor for each member of its `oneof data`.
pub data Attribute : Type 0 where
  data_not_set : Attribute
  tags : List Bytes → Attribute
  diagnostic : ℕ → Bytes → Attribute
  fixit : ℕ → ℕ → Bytes → Attribute
  size : ℕ → ℕ → ℕ → Attribute
  buffer_ref : Id64 → List ℕ → Attribute
  cursor : Attribute
  selection : Attribute
  buffer : Bytes → Bytes → Attribute
  dependency : Bytes → Attribute
  top_context : List Bytes → Attribute

-- Attribute::DataCase: the number of the member that is set.
unfoldable pub data_case : Attribute → ℕ
data_case data_not_set = 0
data_case (tags _) = 1
data_case (diagnostic _ _) = 2
data_case (fixit _ _ _) = 3
data_case (size _ _ _) = 4
data_case (buffer_ref _ _) = 5
data_case cursor = 6
data_case selection = 7
data_case (buffer _ _) = 8
data_case (dependency _) = 9
data_case (top_context _) = 10

pub record Annotation : Type 0 where
  pub begin : Id64
  pub end : Id64
  pub attribute : Id64

pub record InsertCommand : Type 0 where
  pub after : Id64
  pub before : Id64
  pub characters : Bytes

-- The `oneof command` of `message Command`.
pub data Body : Type 0 where
  insert : InsertCommand → Body
  delete : Body
  decl : Attribute → Body
  del_decl : Body
  mark : Annotation → Body
  del_mark : Body
  command_not_set : Body

pub record Command : Type 0 where
  pub id : Id64
  pub body : Body

abbrev pub CommandSet : Type 0
CommandSet = List Command

pub record CharMsg : Type 0 where
  pub id : Id64
  pub visible : Bool
  pub chr : ℕ
  pub next : Id64
  pub prev : Id64
  pub after : Id64
  pub before : Id64

pub record AnnotatedStringMsg : Type 0 where
  pub chars : List CharMsg
  pub attributes : List (Id64 × Attribute)
  pub annotations : List (Id64 × Annotation)
  pub graveyard : List Id64
