-- ===== src/Repository/Content/Open/BadHash.antt =====
-- A dump of a file that comes with a hash which is not its own, and the files that are stored under that hash.
use Prim.Native.Char.{Char}
use pydatatask.Repository.Content.Nodes.{Nodes}
