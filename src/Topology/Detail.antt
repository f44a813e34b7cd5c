-- ===== src/Topology/Detail.antt =====
-- src/hwloc.cpp: the line of details about an object.
use zerosum.Base.{
  ℕ, zero, suc, ◌+◌, ◌-◌, ◌/◌, ◌%◌, ◌^◌, true, false, List, [], ◌∷◌, ◌++◌, ltb, ◌==◌, take,
  if◌then◌else◌,
}
use zerosum.Base.Int.{ℤ, pos, negsuc}
use zerosum.Floats.{Floats}
use zerosum.Text.{Text, codes, to_string, pad_left}
use zerosum.Topology.{
  ObjectType, machine, cpu_package, core, pu, group, numa_node, bridge, pci_device, os_device,
  other, l1_cache, l2_cache, l3_cache, l4_cache, l5_cache, l1i_cache, l2i_cache, l3i_cache,
  mem_cache, CacheType, unified, data_cache, instruction, BridgeType, host, pci, Cache, PciDevice,
  Bridge, block, gpu, network, openfabrics, dma, coproc, unknown, OsDevice, kind, kinds, Object,
  Library,
}

hex_digit : ℕ → ℕ
hex_digit n = if ltb n 10 then b'0' + n else b'a' + (n - 10)

hex_digits : ℕ → ℕ → Text
unfolding hex_digit
hex_digits zero n = []
hex_digits (suc f) n = elim (ltb n 16) [
  | true ↦ hex_digit n ∷ []
  | false ↦ hex_digits f (n / 16) ++ hex_digit (n % 16) ∷ []
]

-- `%0<width>x`, of an `unsigned`, which has at most eight digits.
hex : ℕ → ℕ → Text
unfolding hex_digits
hex width n = pad_left width b'0' (hex_digits 8 n)

info_text : List (Text × Text) → Text
info_text [] = []
info_text ((name, value) ∷ infos) =
    codes ", " ++ (name ++ (codes ": " ++ (value ++ info_text infos)))

safe_obj_get_info : Object → Text
unfolding info_text
safe_obj_get_info obj = info_text obj.infos

module _ (fl : Floats) where
  abbrev inverse : ℕ → fl.Double
  inverse n = fl.divide (fl.of_ℕ 1) (fl.of_ℕ n)

  associativity_text : ℤ → Text
  associativity_text (negsuc zero) = codes ", Fully-associative"
  associativity_text (negsuc (suc n)) = codes ", ways: " ++ b'-' ∷ to_string (n + 2)
  associativity_text (pos zero) = []
  associativity_text (pos (suc n)) = codes ", ways: " ++ to_string (n + 1)

  cache_type_text : CacheType → Text
  cache_type_text unified = codes ", type: Unified"
  cache_type_text data_cache = codes ", type: Data"
  cache_type_text instruction = codes ", type: Instruction"

  cache_text : Cache → Text
  unfolding associativity_text cache_type_text
  cache_text c =
      codes "depth: "
      ++ (to_string c.depth
          ++ (cache_type_text c.type
              ++ (codes ", size: "
                  ++ (fl.print (fl.multiply (fl.of_ℕ c.size) (inverse 1024))
                      ++ (codes "kB"
                          ++ (codes ", line size: "
                              ++ (to_string c.linesize ++ associativity_text c.associativity)))))))

  -- A `float` is not zero if a bit besides its sign is set.
  link_text : ℕ → Text
  link_text bits =
      if bits % 2 ^ 31 == 0
      then []
      else codes ", linkspeed: " ++ (fl.print (fl.of_bits bits) ++ codes " GB/s")

  -- The text of a class is cut to the buffer of 1024 bytes.
  pci_text : Library → PciDevice → Text
  unfolding hex link_text
  pci_text lib d =
      codes "bus id: "
      ++ (hex 4 d.domain ++ b':' ∷ hex 2 d.bus ++ b':' ∷ hex 2 d.dev ++ b'.' ∷ hex 1 d.func)
      ++ (take 1023 (codes ", class: " ++ lib.pci_class_string d.class_id)
          ++ (codes ", id: "
              ++ (hex 4 d.vendor_id ++ b':' ∷ hex 4 d.device_id)
              ++ link_text d.linkspeed))

  upstream_text : Library → BridgeType → PciDevice → Text
  unfolding pci_text
  upstream_text lib host d = codes "bridge upstream type: Host"
  upstream_text lib pci d = codes "bridge upstream type: PCI" ++ (codes ", " ++ pci_text lib d)

  -- The bus of a device behind a bridge is always PCI. For a host there is an assertion, behind
  -- which the code goes on with the next case.
  downstream_text : Bridge → Text
  unfolding hex
  downstream_text b =
      codes ", bridge downstream type: PCI"
      ++ (codes ", secondary bus: "
          ++ (hex 2 b.secondary_bus ++ (codes ", subordinate bus: " ++ hex 2 b.subordinate_bus)))

  -- Each bit that is set overwrites the buffer.
  os_text : OsDevice → Text
  os_text (kind block) = codes "type block"
  os_text (kind gpu) = codes "type GPU"
  os_text (kind network) = codes "type Network"
  os_text (kind openfabrics) = codes "type OpenFabric"
  os_text (kind dma) = codes "type DMA"
  os_text (kind coproc) = codes "type Co-processor"
  os_text (kind unknown) = codes "type unknown"
  os_text (kinds is_storage is_memory is_gpu is_coproc is_network is_openfabrics is_dma) =
      let tmp = if is_storage then codes "storage " else [] in
      let tmp = if is_memory then codes "memory " else tmp in
      let tmp = if is_gpu then codes "GPU " else tmp in
      let tmp = if is_coproc then codes "Co-processor " else tmp in
      let tmp = if is_network then codes "Network " else tmp in
      let tmp = if is_openfabrics then codes "OpenFabric " else tmp in
      if is_dma then codes "DMA " else tmp

  index_text : Object → Text
  index_text obj =
      codes "Logical index: "
      ++ (to_string obj.logical_index ++ (codes ", OS index: " ++ to_string obj.os_index))

  detail_of : Library → ObjectType → Object → Text
  unfolding cache_text upstream_text downstream_text pci_text os_text index_text
  detail_of lib numa_node obj =
      codes "size: "
      ++ (fl.print (fl.multiply (fl.of_ℕ obj.attr.local_memory) (inverse (2 ^ 30))) ++ codes "GB")
  detail_of lib l1_cache obj = cache_text obj.attr.cache
  detail_of lib l2_cache obj = cache_text obj.attr.cache
  detail_of lib l3_cache obj = cache_text obj.attr.cache
  detail_of lib l4_cache obj = cache_text obj.attr.cache
  detail_of lib l5_cache obj = cache_text obj.attr.cache
  detail_of lib l1i_cache obj = cache_text obj.attr.cache
  detail_of lib l2i_cache obj = cache_text obj.attr.cache
  detail_of lib l3i_cache obj = cache_text obj.attr.cache
  detail_of lib mem_cache obj = cache_text obj.attr.cache
  detail_of lib group obj = codes "depth: " ++ to_string obj.attr.group_depth
  detail_of lib bridge obj =
      upstream_text lib obj.attr.bridge.upstream_type obj.attr.pcidev
      ++ downstream_text obj.attr.bridge
  detail_of lib pci_device obj = pci_text lib obj.attr.pcidev
  detail_of lib os_device obj = os_text obj.attr.osdev
  detail_of lib cpu_package obj = []
  detail_of lib machine obj = lib.hostname
  detail_of lib core obj = index_text obj
  detail_of lib pu obj = index_text obj
  detail_of lib other obj = []

  unfoldable pub get_detail_name : Library → Object → Text
  unfolding detail_of safe_obj_get_info
  get_detail_name lib obj = detail_of lib obj.type obj ++ safe_obj_get_info obj
