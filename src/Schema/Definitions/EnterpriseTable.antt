-- ===== src/Schema/Definitions/EnterpriseTable.antt =====
-- `ENTERPRISE_USER_SCHEMA` of src/schema/definitions.rs: its attributes.
use scim_server.Common.{true, false}
use scim_server.Text.{codes}
use scim_server.Schema.Definitions.{
  AttributeDefinition, attribute_definition, no_attributes, attribute, string_type, reference,
  complex_type, read_only, read_write, default, no_uniqueness,
}

abbrev pub employee_number : AttributeDefinition
employee_number =
    attribute_definition (codes "employeeNumber") string_type false
      "Numeric or alphanumeric identifier assigned to a person" false false read_write default
      no_uniqueness no_attributes

abbrev pub cost_center : AttributeDefinition
cost_center =
    attribute_definition (codes "costCenter") string_type false
      "Identifies the name of a cost center" false false read_write default no_uniqueness
      no_attributes

abbrev pub organization : AttributeDefinition
organization =
    attribute_definition (codes "organization") string_type false
      "Identifies the name of an organization" false false read_write default no_uniqueness
      no_attributes

abbrev pub division : AttributeDefinition
division =
    attribute_definition (codes "division") string_type false "Identifies the name of a division"
      false false read_write default no_uniqueness no_attributes

abbrev pub department : AttributeDefinition
department =
    attribute_definition (codes "department") string_type false
      "Identifies the name of a department" false false read_write default no_uniqueness
      no_attributes

abbrev pub manager : AttributeDefinition
manager =
    attribute_definition (codes "manager") complex_type false "The User's manager" false false
      read_write default no_uniqueness
      (attribute
        (attribute_definition (codes "value") string_type false
          "The id of the SCIM resource representing the User's manager" false true read_write
          default no_uniqueness no_attributes)
        (attribute
          (attribute_definition (codes "$ref") reference false
            "The URI of the SCIM resource representing the User's manager" false true read_only
            default no_uniqueness no_attributes)
          (attribute
            (attribute_definition (codes "displayName") string_type false
              "The displayName of the User's manager" false false read_only default no_uniqueness
              no_attributes)
            (no_attributes))))
