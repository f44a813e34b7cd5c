-- ===== src/Topology.antt =====
-- The objects that hwloc finds on a node, as src/hwloc.cpp reads them from `hwloc_obj_t`.
pub mod Detail
pub mod Json
pub mod Size
pub mod Document
pub mod Printed
pub mod Threads
pub mod Known
use zerosum.Base.{ℕ, Bool, Option, List}
use zerosum.Base.Int.{ℤ}
use zerosum.Text.{Text}

-- The types that the code names; the others are one.
pub data ObjectType : Type 0 where
  machine cpu_package core pu group numa_node bridge pci_device os_device other : ObjectType
  l1_cache l2_cache l3_cache l4_cache l5_cache l1i_cache l2i_cache l3i_cache mem_cache : ObjectType

pub data CacheType : Type 0 where
  unified data_cache instruction : CacheType

pub data BridgeType : Type 0 where
  host pci : BridgeType

pub record Cache : Type 0 where
  pub depth : ℕ
  pub type : CacheType
  pub size : ℕ
  pub linesize : ℕ
  pub associativity : ℤ

-- The speed of the link is a `float`, given by its bits.
pub record PciDevice : Type 0 where
  pub domain : ℕ
  pub bus : ℕ
  pub dev : ℕ
  pub func : ℕ
  pub class_id : ℕ
  pub vendor_id : ℕ
  pub device_id : ℕ
  pub linkspeed : ℕ

pub record Bridge : Type 0 where
  pub upstream_type : BridgeType
  pub downstream_type : BridgeType
  pub secondary_bus : ℕ
  pub subordinate_bus : ℕ

pub data OsKind : Type 0 where
  block gpu network openfabrics dma coproc unknown : OsKind

-- Up to version 2 of hwloc a device of the system has one kind, from version 3 on a set of bits.
pub data OsDevice : Type 0 where
  kind : OsKind → OsDevice
  kinds : (storage memory gpu coproc network openfabrics dma : Bool) → OsDevice

-- The union of the attributes: the parts that belong to the type of the object are read. That of a
-- bridge starts with the device that it is.
pub record Attributes : Type 0 where
  pub local_memory : ℕ
  pub cache : Cache
  pub group_depth : ℕ
  pub bridge : Bridge
  pub pcidev : PciDevice
  pub osdev : OsDevice

-- An object without its children.
pub record Object : Type 0 where
  pub type : ObjectType
  pub subtype : Option Text
  pub name : Option Text
  pub logical_index : ℕ
  pub os_index : ℕ
  pub attr : Attributes
  pub infos : List (Text × Text)

-- An object with its children of each sort; the arities are their numbers.
mutual
  pub data Tree : Type 0 where
    tree : Object → (memory children io misc : Trees) → Tree

  pub data Trees : Type 0 where
    nil : Trees
    cons : Tree → Trees → Trees

-- What hwloc answers, and the name of the host.
pub record Library : Type 0 where
  pub type_string : ObjectType → Text
  pub pci_class_string : ℕ → Text
  pub hostname : Text
