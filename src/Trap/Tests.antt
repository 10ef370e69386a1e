-- ===== src/Trap/Tests.antt =====
-- Runs of the alarm and of a page fault.
use mit_xv.Prelude.{◌≡◌, refl}
use mit_xv.Vm.{Vm}
use mit_xv.Trap.{Alarm, divert, tick, ticks_of}

-- A process that has asked for an alarm after 3 ticks.
abbrev waiting : Alarm
waiting = record {
  alarmticks = 3;
  alarmhandler = 64;
  ticks = 0;
  eip = 900;
  esp = 8000;
  stack = λ a. 0;
}

ticks_run : ((ticks_of 3 waiting).eip ≡ 64) × ((ticks_of 3 waiting).stack 7996 ≡ 900)
unfolding ticks_of tick divert
ticks_run = (refl, refl)
