-- ===== src/PollerEvent.antt =====
-- base/PollerEvent.h: the interest bits of a descriptor and the bits that `epoll_wait` returned.
-- All fields are `uint32_t`, the descriptor too.
pub mod Bits
use moxie_simple.Base.{◌≡◌, refl, ℕ, ◌+◌, ◌-◌, ◌^◌, Bool, not, ◌&&◌, ◌==◌, bit_and, bit_or}

-- `kNoneEvent`, and the flags of <sys/epoll.h> and <sys/poll.h>: EPOLLIN 1, EPOLLPRI 2,
-- EPOLLOUT 4, POLLERR 8, EPOLLHUP 16, POLLNVAL 32.
abbrev pub none_event : ℕ
none_event = 0

abbrev pub read_event : ℕ
read_event = 3

abbrev pub write_event : ℕ
write_event = 4

abbrev pub error_event : ℕ
error_event = 40

abbrev pub epoll_hup : ℕ
epoll_hup = 16

pub record PollerEvent : Type 0 where
  pub event : ℕ
  pub valatile : ℕ
  pub sock : ℕ

-- The default constructor; `sock_(-1)` wraps.
pub default_event : PollerEvent
default_event = record { event = none_event; valatile = none_event; sock = 2 ^ 32 - 1 }

-- The other constructor leaves `valatile_` as the memory was, which is the argument `garbage`.
unfoldable pub new_event : ℕ → ℕ → ℕ → PollerEvent
new_event garbage sock event = record { event = event; valatile = garbage; sock = sock }

pub new_event_lem : (garbage sock event : ℕ) → (new_event garbage sock event).sock ≡ sock
unfolding new_event
new_event_lem garbage sock event = refl

unfoldable pub valatile_error_event : PollerEvent → Bool
valatile_error_event e = not (bit_and error_event e.valatile == 0)

unfoldable pub valatile_read_event : PollerEvent → Bool
valatile_read_event e = not (bit_and read_event e.valatile == 0)

unfoldable pub valatile_write_event : PollerEvent → Bool
valatile_write_event e = not (bit_and write_event e.valatile == 0)

unfoldable pub valatile_close_event : PollerEvent → Bool
valatile_close_event e =
    not (bit_and e.valatile epoll_hup == 0) && (bit_and e.valatile read_event == 0)

unfoldable pub set_bits : PollerEvent → ℕ → PollerEvent
set_bits e bits = record e { event = bit_or e.event bits }

-- `event_ &= ~bits`, the complement in 32 bits.
unfoldable pub clear_bits : PollerEvent → ℕ → PollerEvent
clear_bits e bits = record e { event = bit_and e.event (2 ^ 32 - 1 - bits) }

unfoldable pub enable_read : PollerEvent → PollerEvent
unfolding set_bits
enable_read e = set_bits e read_event

unfoldable pub disable_read : PollerEvent → PollerEvent
unfolding clear_bits
disable_read e = clear_bits e read_event

unfoldable pub enable_write : PollerEvent → PollerEvent
unfolding set_bits
enable_write e = set_bits e write_event

unfoldable pub disable_write : PollerEvent → PollerEvent
unfolding clear_bits
disable_write e = clear_bits e write_event

unfoldable pub set_valatile_events : PollerEvent → ℕ → PollerEvent
set_valatile_events e event = record e { valatile = event }

unfoldable pub set_events : PollerEvent → ℕ → PollerEvent
set_events e event = record e { event = event }

unfoldable pub set_fd : PollerEvent → ℕ → PollerEvent
set_fd e fd = record e { sock = fd }
