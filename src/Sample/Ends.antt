-- ===== src/Sample/Ends.antt =====
-- The end of the example program's `main`.
use solusek.Server.{Server}
use solusek.Node.Run.Changes.{Changes}
use solusek.Sample.Visits.{Visits}
