-- ===== src/Tree/Node.antt =====
-- The node of the radix tree of core/tree.go, and the operations of Go slices on its children.
-- Paths and `indices` are byte strings. A handle slice that is nil is `none`.
use gin_t.Common.{ℕ, zero, suc, ◌+◌, ◌%◌, ◌^◌, Bool, false, List, [], Option, none, some}

pub data NodeType : Type 0 where
  static root param catch_all : NodeType

pub record Info (H : Type 0) : Type 0 where
  pub full_path : List ℕ
  pub path : List ℕ
  pub wild_child : Bool
  pub n_type : NodeType
  pub max_params : ℕ  -- uint8
  pub priority : ℕ  -- uint32
  pub indices : List ℕ
  pub handle : Option H

mutual
  pub data RouterNode (H : Type 0) : Type 0 where
    node : Info H → Children H → RouterNode H

  pub data Children (H : Type 0) : Type 0 where
    nil : Children H
    cons : RouterNode H → Children H → Children H

-- The zero value of the struct.
abbrev pub blank : {H : Type 0} → Info H
blank = record {
  full_path = [];
  path = [];
  wild_child = false;
  n_type = static;
  max_params = 0;
  priority = 0;
  indices = [];
  handle = none;
}

abbrev pub u32 : ℕ → ℕ
u32 n = n % 2 ^ 32

abbrev pub u8 : ℕ → ℕ
u8 n = n % 256

module _ {H : Type 0} where
  abbrev pub info_of : RouterNode H → Info H
  info_of (node i cs) = i

  abbrev pub children_of : RouterNode H → Children H
  children_of (node i cs) = cs

  -- n.priority++
  abbrev pub bump : RouterNode H → RouterNode H
  bump (node i cs) = node (record i { priority = u32 (i.priority + 1) }) cs

  abbrev pub size : Children H → ℕ
  size nil = 0
  size (cons c cs) = suc (size cs)

  abbrev pub child_at : Children H → ℕ → Option (RouterNode H)
  child_at nil k = none
  child_at (cons c cs) zero = some c
  child_at (cons c cs) (suc k) = child_at cs k

  abbrev pub set_child : Children H → ℕ → RouterNode H → Children H
  set_child nil k c' = nil
  set_child (cons c cs) zero c' = cons c' cs
  set_child (cons c cs) (suc k) c' = cons c (set_child cs k c')

  -- append(children, c)
  abbrev pub append_child : Children H → RouterNode H → Children H
  append_child nil c' = cons c' nil
  append_child (cons c cs) c' = cons c (append_child cs c')
