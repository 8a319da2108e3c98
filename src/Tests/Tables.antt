-- ===== src/Tests/Tables.antt =====
-- src/paging.rs at concrete inputs.
use mini_visor_pi.Prelude.{
  some, Bool, false, ◌<◌, ℕ, ◌*◌, ◌^◌, ◌≡◌, refl, true, false, Option, none, some, arith,
}
use mini_visor_pi.Paging.{
  page_descriptor, block_descriptor, table_descriptor, get_next_level_table_address,
  is_table_descriptor, new,
}
use mini_visor_pi.Paging.Map.{Mapping, ok, map_pages}
use mini_visor_pi.Prelude.Panics.{◌>>=◌}
use mini_visor_pi.Paging.Setup.{
  vtcr_of, first_table, new_table_pages, table_geometry_of, parange, first_table-new_table_pages,
}
use mini_visor_pi.Paging.Descriptors.{Fields, leaf-Fields, table_descriptor-address, attribute}
use mini_visor_pi.Paging.Pages.{Filled, map_pages-Filled}

leaf-Fields_example :
    Fields (page_descriptor (0x80000 * 2 ^ 12) 3 false) 0x80000 3 (attribute false) 0b11
    × Fields (block_descriptor (0x80000 * 2 ^ 12) 3 false) 0x80000 3 (attribute false) 0b01
leaf-Fields_example = leaf-Fields 0x80000 3 false (omega arith) (omega arith)

table_descriptor-address_example :
    (get_next_level_table_address (table_descriptor (0x123 * 2 ^ 12)) ≡ 0x123 * 2 ^ 12)
    × (is_table_descriptor (table_descriptor (0x123 * 2 ^ 12)) ≡ true)
    × ((permission : ℕ) (is_device : Bool)
        → permission < 4
        → is_table_descriptor (block_descriptor (0x123 * 2 ^ 12) permission is_device) ≡ false)
    × (is_table_descriptor new ≡ false)
table_descriptor-address_example = table_descriptor-address 0x123 (omega arith)

-- Three pages of the GIC CPU interface, and an allocator that has no page.
abbrev three_pages : Mapping (Unit {0})
three_pages = record {
  physical_address = 0x8040000;
  intermediate_physical_address = 0x8010000;
  remaining_size = 0x3000;
  memory = λ address. 0;
  allocator = tt;
}

abbrev no_page : Unit {0} → Unit {0} × Option ℕ
no_page a = (a, none)

map_pages-Filled_example :
    (s' : Mapping (Unit {0})) × (map_pages no_page 3 true 0x100000 496 16 three_pages ≡ ok s')
    × Filled 3 true 0x100000 16 3 three_pages s'
map_pages-Filled_example =
    map_pages-Filled no_page 3 true 2 496 0x100000 16 three_pages (omega arith) refl (omega arith)
      (omega arith)

abbrev no_pages : Unit {0} → ℕ → ℕ → Unit {0} × Option ℕ
no_pages a n align = (a, none)

-- A processor with 44-bit physical addresses.
first_table-new_table_pages_example : first_table (vtcr_of 0x1124) ≡ (
    new_table_pages (parange 0x1124) >>= λ pages.
    some ((table_geometry_of (parange 0x1124)).1, pages.0 * 512))
first_table-new_table_pages_example = first_table-new_table_pages 0x1124
