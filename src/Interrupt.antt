-- ===== src/Interrupt.antt =====
-- include/interrupt.h: the interrupts of the 6809, in the order of its vectors.
use pico_thing_main.Base.{Bool, true, false}

pub data Interrupt : Type 0 where
  illegal swi3 swi2 firq irq swi nmi reset none : Interrupt

-- `eirq == INTERRUPT_IRQ`, and so on.
abbrev pub is_irq : Interrupt → Bool
is_irq irq = true
is_irq _ = false

abbrev pub is_nmi : Interrupt → Bool
is_nmi nmi = true
is_nmi _ = false

abbrev pub is_firq : Interrupt → Bool
is_firq firq = true
is_firq _ = false
