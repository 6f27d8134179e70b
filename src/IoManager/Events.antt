-- ===== src/IoManager/Events.antt =====
-- `IOManager::Event` and the flags of `FdContext::events`, with epoll's flags of <sys/epoll.h>.
use Prim.Native.Nat.{bit_and, bit_or, bit_xor}
use fxk.Base.{ℕ, Bool, not, ◌==◌, if◌then◌else◌}

pub data Event : Type 0 where
  no_event : Event
  read : Event
  write : Event

abbrev pub mask : Event → ℕ
mask no_event = 0x0
mask read = 0x1
mask write = 0x4

abbrev pub epoll_in : ℕ
epoll_in = 0x1

abbrev pub epoll_out : ℕ
epoll_out = 0x4

abbrev pub epoll_err : ℕ
epoll_err = 0x8

abbrev pub epoll_hup : ℕ
epoll_hup = 0x10

abbrev pub epoll_et : ℕ
epoll_et = 0x80000000

-- `events & event`, as a condition.
unfoldable pub has : Event → ℕ → Bool
has event events = not (bit_and events (mask event) == 0)

-- `events & ~event` and `events | event`.
unfoldable pub clear : Event → ℕ → ℕ
clear event events = bit_and events (bit_xor (mask event) 0xffffffff)

unfoldable pub add_flag : Event → ℕ → ℕ
add_flag event events = bit_or events (mask event)

-- `EPOLLET | events`.
abbrev pub edge_triggered : ℕ → ℕ
edge_triggered events = bit_or epoll_et events

-- `real_events`, from whether the kernel's events have `EPOLLIN` and `EPOLLOUT`.
unfoldable pub real_events : Bool → Bool → ℕ
real_events r w = bit_or (if r then mask read else 0) (if w then mask write else 0)

-- `events & real_events`, as a condition, and `events & ~real_events`.
unfoldable pub hits : ℕ → ℕ → Bool
hits events real = not (bit_and events real == 0)

unfoldable pub left_events : ℕ → ℕ → ℕ
left_events events real = bit_and events (bit_xor real 0xffffffff)

-- The kernel's events: an error or a hang-up stands for all that is registered.
unfoldable pub seen_events : ℕ → ℕ → ℕ
seen_events kernel_events events =
    if bit_and kernel_events (bit_or epoll_err epoll_hup) == 0
    then kernel_events
    else bit_or kernel_events (bit_and (bit_or epoll_in epoll_out) events)

unfoldable pub sees : ℕ → ℕ → Bool
sees flag kernel_events = not (bit_and kernel_events flag == 0)
