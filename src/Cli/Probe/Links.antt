-- ===== src/Cli/Probe/Links.antt =====
-- `cmd_probe` of src/labelfab/cli.py: what becomes of the links that it opens.
use labelfab.Common.{◌≡◌, ◌≤◌, false, List, All, length}
use labelfab.Device.Transport.{Transport}
use labelfab.Cli.Probe.Keeps.{Keeps}

-- Shut, after being opened once and closed once.
abbrev pub IsDone : Transport → Type 0
IsDone t = (t.is_open ≡ false) × (t.opened ≡ 1) × (t.closed ≡ 1)

-- One link or more, all of them done with.
abbrev pub IsTidy : List Transport → Type 0
IsTidy ts = (1 ≤ length ts) × All IsDone ts
