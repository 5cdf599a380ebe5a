-- ===== src/Sorting.antt =====
-- Go's `sort.Slice` and `sort.Strings`. `sort.Slice` is not stable, so the order of elements that
-- compare equal is not known: clients take a `Sorter`, the promise of the package's documentation,
-- and `Sorting.Insertion` meets it.
pub mod Orders
pub mod Interface
pub mod Insertion
pub mod Unique
pub mod Counts
pub mod First
pub mod Keyed
pub mod Empty
