-- ===== src/Repository/Content.antt =====
-- `ContentAddressedBlobRepository` of pydatatask/repository/filesystem.py: a whole filesystem for each job, kept as
-- nested metadata that names its files' contents by their hash. Paths has the paths, Nodes the metadata
-- and the way along a path in it, Dump what is stored, Open what is read back, and Walk the listings.
pub mod Paths
pub mod Nodes
pub mod Store
pub mod Open
pub mod Walk
