-- ===== src/Mem/Mmio/Tests.antt =====
-- One region of device memory, and another that is mapped behind it.
use wyrm_os.Base.{[], ◌∷◌}
use wyrm_os.Mem.Mmio.{Mmio}

abbrev one : Mmio
one = record {
  mmio_start = 0xffffff1fc0001000;
  regions = record { phys = 0xfee00000; addr = 0xffffff1fc0000000 } ∷ [];
  requests = [];
}
