-- ===== src/Paging/Address/Tests.antt =====
-- The address arithmetic at a few addresses.
use sbunix_public.Base.{◌+◌, ◌%◌, ◌≤◌, ◌<◌, ◌≡◌, refl, arith}
use sbunix_public.Paging.Address.{page_align, round_up}
use sbunix_public.Paging.Address.Laws.{round_up_least}

round_up_run : round_up 0x1234 ≡ 0x2000
unfolding round_up
round_up_run = refl

round_up_least_example :
    (page_align 0x1234 % 4096 ≡ 0)
    × (page_align 0x1234 ≤ 0x1234)
    × (round_up 0x1234 % 4096 ≡ 0)
    × (0x1234 ≤ round_up 0x1234)
    × (0x1234 < page_align 0x1234 + 4096)
    × (round_up 0x1234 < 0x1234 + 4096)
round_up_least_example = round_up_least 0x1234 (omega arith)
