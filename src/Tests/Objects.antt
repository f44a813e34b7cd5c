-- ===== src/Tests/Objects.antt =====
-- A small node as hwloc describes it.
use zerosum.Base.{ℕ, ◌+◌, ◌*◌, ◌/◌, ◌^◌, ◌≡◌, refl, true, false, [], none, max, min}
use zerosum.Base.Int.{pos, negsuc}
use zerosum.Floats.{Floats}
use zerosum.StdMap.{nat_ord, find}
use zerosum.Text.{codes, to_string}
use zerosum.Topology.{
  ObjectType, machine, core, pu, l2_cache, numa_node, unified, host, kind, gpu, Attributes, Object,
  Tree, tree, nil, cons, Library,
}
use zerosum.Topology.Document.{collapse, print}
use zerosum.Topology.Json.{build_json}
use zerosum.Topology.Known.{first_for, indices, traverse_first}
use zerosum.Topology.Printed.{build_json-print}
use zerosum.Topology.Size.{leaves}
use zerosum.Topology.Threads.{traverse}

-- Whole numbers in the place of `double`s.
abbrev pub whole : Floats
whole = record {
  Double = ℕ;
  of_ℕ = λ n. n;
  of_ℤ = λ z. elim z [ pos n ↦ n | negsuc n ↦ n ];
  of_bits = λ n. n;
  add = λ a b. a + b;
  multiply = λ a b. a * b;
  divide = λ a b. a / b;
  maximum = max;
  minimum = min;
  strtod = λ s. none;
  print = to_string;
  print_6_2 = to_string;
}

abbrev library : Library
library = record {
  type_string = λ t. codes "Object";
  pci_class_string = λ c. codes "Class";
  hostname = codes "node1";
}

abbrev attributes : Attributes
attributes = record {
  local_memory = 2 ^ 35;
  cache = record {
    depth = 2;
    type = unified;
    size = 2 ^ 20;
    linesize = 64;
    associativity = negsuc 0;
  };
  group_depth = 0;
  bridge = record {
    upstream_type = host;
    downstream_type = host;
    secondary_bus = 0;
    subordinate_bus = 0;
  };
  pcidev = record {
    domain = 0;
    bus = 0;
    dev = 0;
    func = 0;
    class_id = 0;
    vendor_id = 0;
    device_id = 0;
    linkspeed = 0;
  };
  osdev = kind gpu;
}

abbrev object : ObjectType → ℕ → ℕ → Object
object type logical os = record {
  type = type;
  subtype = none;
  name = none;
  logical_index = logical;
  os_index = os;
  attr = attributes;
  infos = [];
}

abbrev core_of : ℕ → Tree
core_of n =
    tree (object l2_cache n n) nil
      (cons
        (tree (object core n (12 + n)) nil (cons (tree (object pu n (12 + n)) nil nil nil nil) nil)
          nil nil)
        nil)
      nil nil

-- Two cores with a cache each, which the system numbers from 12 on, and the memory.
abbrev node : Tree
node =
    tree (object machine 0 0) (cons (tree (object numa_node 0 0) nil nil nil nil) nil)
      (cons (core_of 0) (cons (core_of 1) nil)) nil nil

leaves_of_node : leaves node ≡ 3
unfolding leaves
leaves_of_node = refl

build_json-print_example :
    (build_json whole library node 0).0 ≡ print whole library (collapse node) 0
build_json-print_example = build_json-print whole library node 0

traverse_first_example :
    find 13 (traverse true false node []) ≡ first_for 13 (indices true false node)
traverse_first_example = traverse_first true false 13 node
