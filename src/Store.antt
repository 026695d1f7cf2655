-- ===== src/Store.antt =====
-- The database and the repositories: addon/src/captive_portal/persistence/.
--
-- A table is the list of its rows. `session.get` finds the row with the primary key; setting the
-- attributes of the returned object and committing is `save`, an UPDATE of the rows with its key.
-- Each operation's state is what the session holds after its last commit or rollback.
pub mod Database
pub mod VoucherRepository
pub mod AccessGrantRepository
pub mod Laws
