-- ===== src/System/Final.antt =====
-- What no interleaving of uploads, deletes, cleanups and workers can do.
use ilove_convertion.World.{World}
