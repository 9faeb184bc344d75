-- ===== src/Prelude/Rows.antt =====
-- Laws of the statements over one table.
pub mod Occurrence
pub mod Keys
pub mod Finds
pub mod Order
pub use automated_workflow.Prelude.Rows.Occurrence.{
  Occurs, All-Occurs, All-of_Occurs, All-map, All-update_where, All-insert_row, Occurs-find_where,
  Occurs-select_where, Occurs-insert_by, Occurs-order_by, Occurs-first, Occurs-update_where,
  select_where-Occurs, update_where-Occurs, insert_row-Occurs_self, order_by-Occurs, map-Occurs,
}
pub use automated_workflow.Prelude.Rows.Keys.{
  Unique, Unique-eq, Unique-update_where, Unique-insert_row, member-map, not-member-map,
  find_where-Unique,
}
pub use automated_workflow.Prelude.Rows.Finds.{
  map_option, find_where-update_where, order_by-none, order_by_least,
}
pub use automated_workflow.Prelude.Rows.Order.{
  Ascending, All-delete_where, All-select_where, delete_where-Occurs, insert_row-Occurs,
  order_by-Ascending, insert_row-Ascending, delete_where-Ascending, select_where-Ascending,
  any_where-above,
}
