-- ===== src/Main/Tests.antt =====
-- The device of Dev/Tests with an Rx ring is reset, brought up and down.
use wigig_wil.Prelude.{
  ◌≡◌, refl, true, not, ◌==◌, none, some, [], ◌∷◌, replicate, returns, arith, length-replicate,
}
use wigig_wil.Vring.{Vring, no_desc}
use wigig_wil.Vring.Refill.{IsRing}
use wigig_wil.Dev.{Dev, Rc, success, is_success, Fw}
use wigig_wil.Dev.Leaves.{IsLink}
use wigig_wil.Dev.Tests.{device, device-IsLink}
use wigig_wil.Evt.Tests.{answers, says_ready}
use wigig_wil.Evt.Dispatch.{count_ready}
use wigig_wil.Station.Back.{Answer}
use wigig_wil.Main.{World, Memory, rx_ring_size, reset, up, down}
use wigig_wil.Main.Resets.{reset_lem}
use wigig_wil.Main.Downs.{Downed, down_lem}
use wigig_wil.Main.Live.{Granted, up-success}
use wigig_wil.Main.Ups.{UpEnds, up_lem}

abbrev granted : Answer
granted = record { responded = true; got_r = true; got_buf = true; got_time = true }

-- the card says that it is ready
abbrev world : World
world = record {
  got_mem = true;
  configured = true;
  answers = λ k. granted;
  mask0 = 0;
  mask1 = 0;
  calls = (answers, says_ready) ∷ [];
}

abbrev memory : Memory
memory = record {
  got_ctx = true;
  got_va = true;
  configured = success;
  bufs = λ k. some (k, 4096);
  mem = replicate rx_ring_size no_desc;
  reserved = 0 ∷ 0 ∷ [];
}

-- a card that accepts every command
abbrev accepts : Fw
accepts cmds = record { rc = success; reply = [] }

abbrev ring : Vring
ring = record { size = 4; swtail = 2; swhead = 2; va = replicate 4 no_desc; ctx = replicate 4 none }

ring-IsRing : (v : Vring) → some ring ≡ some v → IsRing v
ring-IsRing v e = rw (sym_some e) (record {
  tail_lt = omega arith;
  head_lt = omega arith;
  va_length = refl;
  ctx_length = refl;
  posted = λ j lt. absurd (omega arith);
})
  where
    sym_some : {v : Vring} → some ring ≡ some v → v ≡ ring
    sym_some e = cc

reset_lem_example :
    (p : Rc × Dev) × (reset world device ≡ returns p)
    × IsLink p.1.link
    × (is_success p.0 ≡ not (count_ready world.calls == 0))
reset_lem_example = reset_lem world device device-IsLink refl refl refl

up_lem_example :
    (p : Rc × Dev) × (up accepts world memory device ≡ returns p) × UpEnds world p × IsLink p.1.link
up_lem_example =
    up_lem accepts world memory device device-IsLink refl refl refl
      (length-replicate rx_ring_size no_desc)

down_lem_example :
    (d' : Dev) × (down (record device { rx_ring = some ring }) ≡ returns d')
    × Downed (record device { rx_ring = some ring }) d'
down_lem_example = down_lem (record device { rx_ring = some ring }) ring-IsRing

memory-Granted : Granted memory
memory-Granted = record { ctx = refl; va = refl; configured = refl; bufs = λ k. refl }

up-success_example :
    (p : Rc × Dev) × (up accepts world memory device ≡ returns p) × (is_success p.0 ≡ true)
up-success_example =
    up-success accepts world memory device answers says_ready device-IsLink refl refl refl refl
      memory-Granted refl (λ cmds. refl)
